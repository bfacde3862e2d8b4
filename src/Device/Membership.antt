-- ===== src/Device/Membership.antt =====
-- The list of multicast addresses as the set of its members.
use mathlib.Core.Path.{fun_ext}
use driver_amiga_os_ks.Prelude.{
  ℕ, List, Bool, true, ◌∷◌, ◌≡◌, ◌&&◌, ap, arith, not, sym, [], ◌∙◌, refl, ◌||◌, if◌then◌else◌,
  false,
}
use driver_amiga_os_ks.Device.Receive.{address_eq}
use driver_amiga_os_ks.Device.Multicast.{
  has_address, remove_address, dev_cmd_add_multi, dev_cmd_rem_multi,
}
use driver_amiga_os_ks.Device.Types.{
  DeviceUnit, Request, term_io, fail_io, software, s2werr_generic_error, bad_address,
  s2werr_bad_multicast,
}

address_eq_sound : (x y : List ℕ) → address_eq x y ≡ true → x ≡ y
unfolding address_eq
address_eq_sound [] [] h = refl
address_eq_sound [] (y ∷ ys) h = cc
address_eq_sound (x ∷ xs) [] h = cc
address_eq_sound (x ∷ xs) (y ∷ ys) h =
    let heads : x ≡ y = ground arith in
    ap (λ z. z ∷ xs) heads ∙ ap (λ zs. y ∷ zs) (address_eq_sound xs ys (ground arith))

address_eq_self : (x : List ℕ) → address_eq x x ≡ true
unfolding address_eq
address_eq_self [] = refl
address_eq_self (x ∷ xs) = ground (arith, address_eq_self xs)

address_eq_trans :
    (x a b : List ℕ) → address_eq x b ≡ true → address_eq a b ≡ true → address_eq x a ≡ true
address_eq_trans x a b h k =
    ap (λ z. address_eq z a) (address_eq_sound x b h ∙ sym (address_eq_sound a b k))
    ∙ address_eq_self a

-- Whether no address stands in a list twice.
abbrev pub are_distinct : List (List ℕ) → Bool
are_distinct [] = true
are_distinct (a ∷ as') = not (has_address a as') && are_distinct as'

has_address-eq :
    (a b : List ℕ) (mcaf : List (List ℕ))
    → address_eq a b ≡ true
    → has_address b mcaf ≡ has_address a mcaf
has_address-eq a b mcaf h = sym (ap (λ z. has_address z mcaf) (address_eq_sound a b h))

has_address-remove_address :
    (a b : List ℕ) (mcaf : List (List ℕ))
    → are_distinct mcaf ≡ true
    → has_address b (remove_address a mcaf) ≡ (has_address b mcaf && not (address_eq a b))
unfolding has_address remove_address
has_address-remove_address a b [] d = refl
has_address-remove_address a b (x ∷ xs) d = ground (
  arith,
  has_address-remove_address a b xs,
  address_eq_trans x a b,
  address_eq_trans a x b,
  has_address-eq x b xs,
  address_eq_sound x a,
)

are_distinct-remove_address :
    (a : List ℕ) (mcaf : List (List ℕ))
    → are_distinct mcaf ≡ true
    → are_distinct (remove_address a mcaf) ≡ true
unfolding remove_address
are_distinct-remove_address a [] d = refl
are_distinct-remove_address a (x ∷ xs) d =
    ground (arith, are_distinct-remove_address a xs, has_address-remove_address a x xs)

-- A multicast command: `add` with whether `AllocMem` succeeds.
pub data MultiCommand : Type 0 where
  add : Bool → Request → MultiCommand
  remove : Request → MultiCommand

abbrev pub perform_multi : MultiCommand → List (List ℕ) × DeviceUnit → List (List ℕ) × DeviceUnit
perform_multi (add memory r) (mcaf, u) = dev_cmd_add_multi memory r mcaf u
perform_multi (remove r) (mcaf, u) = dev_cmd_rem_multi r mcaf u

abbrev pub perform_multis :
    List MultiCommand → List (List ℕ) × DeviceUnit → List (List ℕ) × DeviceUnit
perform_multis [] s = s
perform_multis (c ∷ cs) s = perform_multis cs (perform_multi c s)

-- The specification: a set of addresses, and the unit that the answers go to.
abbrev pub AddressSet : Type 0
AddressSet = List ℕ → Bool

abbrev pub next_set : MultiCommand → AddressSet × DeviceUnit → AddressSet × DeviceUnit
next_set (add memory r) (set, u) = (
  λ a. set a || (memory && address_eq r.src_addr a),
  if set r.src_addr || memory then term_io r u else fail_io r software s2werr_generic_error u,
)
next_set (remove r) (set, u) = (
  λ a. set a && not (address_eq r.src_addr a),
  if set r.src_addr then term_io r u else fail_io r bad_address s2werr_bad_multicast u,
)

abbrev pub next_sets : List MultiCommand → AddressSet × DeviceUnit → AddressSet × DeviceUnit
next_sets [] s = s
next_sets (c ∷ cs) s = next_sets cs (next_set c s)

abbrev pub set_of : List (List ℕ) × DeviceUnit → AddressSet × DeviceUnit
set_of (mcaf, u) = (λ a. has_address a mcaf, u)

are_distinct-perform_multi :
    (c : MultiCommand) (mcaf : List (List ℕ)) (u : DeviceUnit)
    → are_distinct mcaf ≡ true
    → are_distinct (perform_multi c (mcaf, u)).0 ≡ true
unfolding dev_cmd_add_multi dev_cmd_rem_multi
are_distinct-perform_multi (add memory r) mcaf u d = ground arith
are_distinct-perform_multi (remove r) mcaf u d =
    ground (arith, are_distinct-remove_address r.src_addr mcaf)

has_address-perform_multi :
    (c : MultiCommand) (mcaf : List (List ℕ)) (u : DeviceUnit) (a : List ℕ)
    → are_distinct mcaf ≡ true
    → has_address a (perform_multi c (mcaf, u)).0 ≡ (next_set c (set_of (mcaf, u))).0 a
unfolding dev_cmd_add_multi dev_cmd_rem_multi has_address
has_address-perform_multi (add memory r) mcaf u a d =
    ground (arith, has_address-eq r.src_addr a mcaf)
has_address-perform_multi (remove r) mcaf u a d =
    ground (arith, has_address-remove_address r.src_addr a mcaf, has_address-eq r.src_addr a mcaf)

-- Two tests in turn with one outcome, beside another value.
second-if :
    {A B : Type 0} (found memory : Bool) (p q n : A) (done failed : B)
    → (let p' : A × B = if found then (p, done) else if memory then (q, done) else (n, failed) in
        p'.1)
      ≡ (if found || memory then done else failed)
second-if true memory p q n done failed = refl
second-if false true p q n done failed = refl
second-if false false p q n done failed = refl

unit-perform_multi :
    (c : MultiCommand) (mcaf : List (List ℕ)) (u : DeviceUnit)
    → (perform_multi c (mcaf, u)).1 ≡ (next_set c (set_of (mcaf, u))).1
unfolding dev_cmd_add_multi dev_cmd_rem_multi
unit-perform_multi (add memory r) mcaf u =
    second-if (has_address r.src_addr mcaf) memory mcaf (r.src_addr ∷ mcaf) mcaf (term_io r u)
      (fail_io r software s2werr_generic_error u)
unit-perform_multi (remove r) mcaf u =
    second-if (has_address r.src_addr mcaf) false (remove_address r.src_addr mcaf) mcaf mcaf
      (term_io r u) (fail_io r bad_address s2werr_bad_multicast u)
    ∙ or_nil (has_address r.src_addr mcaf)
  where
    or_nil :
        (b : Bool)
        → (if b || false then term_io r u else fail_io r bad_address s2werr_bad_multicast u)
          ≡ (if b then term_io r u else fail_io r bad_address s2werr_bad_multicast u)
    or_nil true = refl
    or_nil false = refl

-- Any sequence of commands that add and remove multicast addresses acts on the list as on the set of
-- its members, if the list has no address twice at the start: an address is a member once it is added
-- with memory at hand and until it is removed; an add fails with S2ERR_SOFTWARE exactly if the address is
-- no member and there is no memory, and a removal with S2ERR_BAD_ADDRESS exactly if it is no member;
-- each request is completed once, and nothing else changes in the unit.
pub perform_multis-next_sets :
    (cs : List MultiCommand) (mcaf : List (List ℕ)) (u : DeviceUnit)
    → are_distinct mcaf ≡ true
    → set_of (perform_multis cs (mcaf, u)) ≡ next_sets cs (set_of (mcaf, u))
perform_multis-next_sets [] mcaf u d = refl
perform_multis-next_sets (c ∷ cs) mcaf u d =
    let s = perform_multi c (mcaf, u) in
    let members = fun_ext (λ a. has_address-perform_multi c mcaf u a d) in
    perform_multis-next_sets cs s.0 s.1 (are_distinct-perform_multi c mcaf u d)
    ∙ ap (next_sets cs) (
        ap (λ set. (set, s.1)) members
        ∙ ap (λ u'. ((next_set c (set_of (mcaf, u))).0, u')) (unit-perform_multi c mcaf u))
