-- ===== src/Callbacks/Tests.antt =====
-- A function of a network stack, and the theorem on calls at it.
use driver_amiga_os_ks.Callbacks.{
  Code, Machine, push_registers, with_d0, d0, copy_buf, call_filter_hook,
}
use driver_amiga_os_ks.Callbacks.Calls.{
  copy_arguments, hook_arguments, ReturnsByRts, copy_buf-call_filter_hook,
}
use driver_amiga_os_ks.Prelude.{◌∷◌, [], ◌≡◌, refl}

-- Clears the registers and returns 1.
abbrev careless : Code
careless p m = record { d = λ _. 1; a = λ _. 0; stack = m.stack }

abbrev running : Machine
running = record { d = λ _. 7; a = λ _. 9; stack = 3 ∷ 4 ∷ [] }

copy_buf-call_filter_hook_example :
    (let a = copy_arguments 100 200 300 running in
      let answer =
        (careless 100 (push_registers (record running { a = a; d = with_d0 64 running.d }))).d d0 in
      copy_buf careless 100 200 300 64 running
      ≡ (answer, record running { a = a; d = with_d0 answer running.d }))
    × (let a = hook_arguments 400 500 600 700 running in
        let answer = (careless 500 (push_registers (record running { a = a }))).d d0 in
        call_filter_hook careless 400 500 600 700 running
        ≡ (answer, record running { a = a; d = with_d0 answer running.d }))
copy_buf-call_filter_hook_example =
    copy_buf-call_filter_hook careless returns 100 200 300 64 400 500 600 700 running
  where
    returns : ReturnsByRts careless
    returns p m = refl
