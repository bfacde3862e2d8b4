-- ===== src/Callbacks/Calls.antt =====
-- What a function of the network stack sees, and what the device has back after its return.
use mathlib.Core.Path.{fun_ext}
use driver_amiga_os_ks.Prelude.{ℕ, List, ◌≡◌, ap, ◌∙◌, refl}
use driver_amiga_os_ks.Callbacks.{
  a0, a1, a2, a3, Code, Machine, push_registers, pop_registers, d1, with_d0, d0, d2, d3, d4, d5, d6,
  d7, a4, a5, a6, AddressRegister, DataRegister, copy_buf, call_filter_hook, popped_d, with_a0,
  popped_a, with_a1, with_a2, with_a3, a0, a1, a2, a3,
}

-- A function returns with the stack as it found it.
abbrev pub ReturnsByRts : Code → Type 0
ReturnsByRts code = (p : ℕ) (m : Machine) → (code p m).stack ≡ m.stack

-- What the registers are popped from: the pushed ones, with the d0 of the return.
pop_registers-push_registers :
    (before returned : Machine)
    → returned.stack ≡ (push_registers before).stack
    → pop_registers returned ≡ record before { d = with_d0 (returned.d d0) before.d }
unfolding push_registers pop_registers
pop_registers-push_registers before returned h =
    let pushed = record returned { stack = (push_registers before).stack } in
    ap {A = List ℕ} (λ stack. pop_registers (record returned { stack = stack })) h
    ∙ ap (λ d. record before { d = d; a = popped_a pushed }) (fun_ext data_back)
    ∙ ap (λ a. record before { d = with_d0 (returned.d d0) before.d; a = a }) (fun_ext address_back)
  where
    data_back :
        (r : DataRegister)
        → popped_d (record returned { stack = (push_registers before).stack }) r
          ≡ with_d0 (returned.d d0) before.d r
    data_back d0 = refl
    data_back d1 = refl
    data_back d2 = refl
    data_back d3 = refl
    data_back d4 = refl
    data_back d5 = refl
    data_back d6 = refl
    data_back d7 = refl

    address_back :
        (r : AddressRegister)
        → popped_a (record returned { stack = (push_registers before).stack }) r ≡ before.a r
    address_back a0 = refl
    address_back a1 = refl
    address_back a2 = refl
    address_back a3 = refl
    address_back a4 = refl
    address_back a5 = refl
    address_back a6 = refl

-- The registers with the arguments of `CopyBuf`.
abbrev pub copy_arguments : ℕ → ℕ → ℕ → Machine → AddressRegister → ℕ
copy_arguments func_ptr to from m a0 = to
copy_arguments func_ptr to from m a1 = from
copy_arguments func_ptr to from m a2 = func_ptr
copy_arguments func_ptr to from m r = m.a r

-- The registers with the arguments of `CallFilterHook`.
abbrev pub hook_arguments : ℕ → ℕ → ℕ → ℕ → Machine → AddressRegister → ℕ
hook_arguments hook h_entry ioreq raw_pkt_data m a0 = hook
hook_arguments hook h_entry ioreq raw_pkt_data m a1 = raw_pkt_data
hook_arguments hook h_entry ioreq raw_pkt_data m a2 = ioreq
hook_arguments hook h_entry ioreq raw_pkt_data m a3 = h_entry
hook_arguments hook h_entry ioreq raw_pkt_data m r = m.a r

copy_loads :
    (func_ptr to from : ℕ) (m : Machine) (r : AddressRegister)
    → with_a0 to (with_a1 from (with_a2 func_ptr m.a)) r ≡ copy_arguments func_ptr to from m r
copy_loads func_ptr to from m a0 = refl
copy_loads func_ptr to from m a1 = refl
copy_loads func_ptr to from m a2 = refl
copy_loads func_ptr to from m r = refl

hook_loads :
    (hook h_entry ioreq raw_pkt_data : ℕ) (m : Machine) (r : AddressRegister)
    → with_a1 raw_pkt_data (with_a2 ioreq (with_a0 hook (with_a3 h_entry m.a))) r
      ≡ hook_arguments hook h_entry ioreq raw_pkt_data m r
hook_loads hook h_entry ioreq raw_pkt_data m a0 = refl
hook_loads hook h_entry ioreq raw_pkt_data m a1 = refl
hook_loads hook h_entry ioreq raw_pkt_data m a2 = refl
hook_loads hook h_entry ioreq raw_pkt_data m a3 = refl
hook_loads hook h_entry ioreq raw_pkt_data m r = refl

with_d0_twice :
    (x y : ℕ) (d : DataRegister → ℕ) (r : DataRegister) → with_d0 x (with_d0 y d) r ≡ with_d0 x d r
with_d0_twice x y d d0 = refl
with_d0_twice x y d r = refl

module _ (code : Code) (rts : ReturnsByRts code) where
  with_result :
      (loaded : Machine) (p : ℕ)
      → (let popped = pop_registers (code p (push_registers loaded)) in
          ◌≡◌ {A = ℕ × Machine}
            (popped.d d0, popped)
            (
              (code p (push_registers loaded)).d d0,
              record loaded { d = with_d0 ((code p (push_registers loaded)).d d0) loaded.d },
            ))
  with_result loaded p =
      let returned = code p (push_registers loaded) in
      ap (λ m. (m.d d0, m))
        (pop_registers-push_registers loaded returned (rts p (push_registers loaded)))

  -- Whatever registers a function of the stack changes, if it returns with the stack as it found it: a
  -- copy function gets the destination in a0, the source in a1 and the length in d0, and a filter hook
  -- itself in a0, the packet in a1 and the request in a2; the result is what the function leaves in d0;
  -- and all other registers and the stack come back as they were, but for those that the arguments and
  -- the function's address were loaded into.
  pub copy_buf-call_filter_hook :
      (func_ptr to from len hook h_entry ioreq raw_pkt_data : ℕ) (m : Machine)
      → (let a = copy_arguments func_ptr to from m in
          let answer =
            (code func_ptr (push_registers (record m { a = a; d = with_d0 len m.d }))).d d0 in
          copy_buf code func_ptr to from len m
          ≡ (answer, record m { a = a; d = with_d0 answer m.d }))
        × (let a = hook_arguments hook h_entry ioreq raw_pkt_data m in
            let answer = (code h_entry (push_registers (record m { a = a }))).d d0 in
            call_filter_hook code hook h_entry ioreq raw_pkt_data m
            ≡ (answer, record m { a = a; d = with_d0 answer m.d }))
  unfolding copy_buf call_filter_hook
  copy_buf-call_filter_hook func_ptr to from len hook h_entry ioreq raw_pkt_data m = (
    with_result
          (record m { a = with_a0 to (with_a1 from (with_a2 func_ptr m.a)); d = with_d0 len m.d })
          func_ptr
        ∙ ap {A = AddressRegister → ℕ} (λ a. copied a (with_d0 (copy_answer a) (with_d0 len m.d)))
            (fun_ext (copy_loads func_ptr to from m))
        ∙ ap (copied (copy_arguments func_ptr to from m))
            (fun_ext (with_d0_twice (copy_answer (copy_arguments func_ptr to from m)) len m.d)),
    with_result
          (record m {
            a = with_a1 raw_pkt_data (with_a2 ioreq (with_a0 hook (with_a3 h_entry m.a)));
          })
          h_entry
        ∙ ap {A = AddressRegister → ℕ} hooked
            (fun_ext (hook_loads hook h_entry ioreq raw_pkt_data m)),
  )
    where
      copy_answer : (AddressRegister → ℕ) → ℕ
      copy_answer a =
          (code func_ptr (push_registers (record m { a = a; d = with_d0 len m.d }))).d d0

      copied : (AddressRegister → ℕ) → (DataRegister → ℕ) → ℕ × Machine
      copied a d = (copy_answer a, record m { a = a; d = d })

      hooked : (AddressRegister → ℕ) → ℕ × Machine
      hooked a =
          let answer = (code h_entry (push_registers (record m { a = a }))).d d0 in
          (answer, record m { a = a; d = with_d0 answer m.d })
