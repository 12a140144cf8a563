-- ===== src/Input/Keys.antt =====
-- Bits that are set and cleared, and the keys of CompactKeyStates.
use moonlight_common_rust.Common.{
  ℕ, zero, suc, ◌+◌, ◌*◌, ◌/◌, ◌%◌, ◌<◌, ◌≡◌, refl, arith, true, false, List, [], ◌∷◌, Bytes, byte,
  get_or, set, length, none, some, ◌==◌, if◌then◌else◌, Bool-cases, inl, inr, Option-cases,
}
use moonlight_common_rust.Common.Int.{ℤ, pos, negsuc, eq_ℤ}
use moonlight_common_rust.Input.{
  KeyAction, up, down, has_bit, set_bit, clear_bit, set_byte, key_action, key_to_bit, set_pressed,
  is_pressed, contains_key, insert_key, remove_key, store_key, set_key_down, InputBatcher,
}

pub has_bit-set_bit :
    (mask i j : ℕ) → has_bit (set_bit mask i) j ≡ (if i == j then true else has_bit mask j)
unfolding has_bit set_bit
has_bit-set_bit mask zero zero = ground arith
has_bit-set_bit mask zero (suc j) =
    let e : (mask / 2 * 2 + 1) / 2 ≡ mask / 2 = omega arith in
    let z : (0 == suc j) ≡ false = ground arith in rw (e, z, has_bit)
has_bit-set_bit mask (suc i) zero = ground arith
has_bit-set_bit mask (suc i) (suc j) =
    let e : (set_bit (mask / 2) i * 2 + mask % 2) / 2 ≡ set_bit (mask / 2) i = omega arith in
    let z : (suc i == suc j) ≡ (i == j) = ground arith in rw (e, z) (has_bit-set_bit (mask / 2) i j)

pub has_bit-clear_bit :
    (mask i j : ℕ) → has_bit (clear_bit mask i) j ≡ (if i == j then false else has_bit mask j)
unfolding has_bit clear_bit
has_bit-clear_bit mask zero zero = ground arith
has_bit-clear_bit mask zero (suc j) =
    let e : (mask / 2 * 2) / 2 ≡ mask / 2 = omega arith in
    let z : (0 == suc j) ≡ false = ground arith in rw (e, z, has_bit)
has_bit-clear_bit mask (suc i) zero = ground arith
has_bit-clear_bit mask (suc i) (suc j) =
    let e : (clear_bit (mask / 2) i * 2 + mask % 2) / 2 ≡ clear_bit (mask / 2) i = omega arith in
    let z : (suc i == suc j) ≡ (i == j) = ground arith in
    rw (e, z) (has_bit-clear_bit (mask / 2) i j)

-- Is the key down, by its bit or by the set?
unfoldable pub key_down : InputBatcher → ℤ → KeyAction
key_down b key_code = elim (is_pressed b.key_states key_code) [
  | some action ↦ action
  | none ↦ key_action (contains_key key_code b.key_states_map)
]

get_or-set :
    (xs : Bytes) (i j v : ℕ)
    → i < length xs
    → get_or (set xs i v) j 0 ≡ (if i == j then v else get_or xs j 0)
get_or-set [] i j v h = absurd (omega arith)
get_or-set (x ∷ xs) zero zero v h = refl
get_or-set (x ∷ xs) zero (suc j) v h = ground arith
get_or-set (x ∷ xs) (suc i) zero v h = ground arith
get_or-set (x ∷ xs) (suc i) (suc j) v h = ground (arith, get_or-set xs i j v)

has_bit-set_byte :
    (mask i j : ℕ) (action : KeyAction)
    → key_action (has_bit (set_byte mask i action) j)
      ≡ (if i == j then action else key_action (has_bit mask j))
unfolding set_byte
has_bit-set_byte mask i j up = ground (arith, has_bit-clear_bit mask i j)
has_bit-set_byte mask i j down = ground (arith, has_bit-set_bit mask i j)

contains_key-remove_key :
    (key other : ℤ) (keys : List ℤ)
    → contains_key other (remove_key key keys)
      ≡ (if eq_ℤ key other then false else contains_key other keys)
unfolding contains_key remove_key
contains_key-remove_key key other [] = ground arith
contains_key-remove_key key other (k ∷ keys) =
    ground (arith, contains_key-remove_key key other keys)

eq_ℤ→≡ : (a b : ℤ) → eq_ℤ a b ≡ true → a ≡ b
eq_ℤ→≡ a b e = ground arith

contains_key-insert_key :
    (key other : ℤ) (keys : List ℤ)
    → contains_key other (insert_key key keys)
      ≡ (if eq_ℤ key other then true else contains_key other keys)
unfolding contains_key insert_key
contains_key-insert_key key other keys = elim (Bool-cases (contains_key key keys)) [
  | inl e ↦ rw e (elim (Bool-cases (eq_ℤ key other)) [
    | inl same ↦ rw (same, ← eq_ℤ→≡ key other same) e
    | inr apart ↦ rw apart
  ])
  | inr e ↦ ground arith
]

contains-store_key :
    (action : KeyAction) (key other : ℤ) (keys : List ℤ)
    → key_action (contains_key other (store_key action key keys))
      ≡ (if eq_ℤ key other then action else key_action (contains_key other keys))
unfolding store_key
contains-store_key up key other keys = ground (arith, contains_key-remove_key key other keys)
contains-store_key down key other keys = ground (arith, contains_key-insert_key key other keys)

key_to_bit-lt : (key : ℤ) (i : ℕ) → key_to_bit key ≡ some i → i < 256
unfolding key_to_bit
key_to_bit-lt (pos n) i e = ground arith
key_to_bit-lt (negsuc n) i e = cc

key_to_bit_injective :
    (key other : ℤ) (i j : ℕ)
    → key_to_bit key ≡ some i
    → key_to_bit other ≡ some j
    → (i == j) ≡ eq_ℤ key other
unfolding key_to_bit
key_to_bit_injective (pos m) (pos n) i j e f = ground arith
key_to_bit_injective (pos m) (negsuc n) i j e f = cc
key_to_bit_injective (negsuc m) other i j e f = cc

eq_ℤ_sym : (a b : ℤ) → eq_ℤ a b ≡ eq_ℤ b a
eq_ℤ_sym a b = ground arith

eq_ℤ_apart :
    (key other : ℤ) (i : ℕ)
    → key_to_bit key ≡ some i
    → key_to_bit other ≡ none
    → eq_ℤ key other ≡ false
unfolding key_to_bit
eq_ℤ_apart (pos m) (pos n) i e f = ground arith
eq_ℤ_apart (pos m) (negsuc n) i e f = refl
eq_ℤ_apart (negsuc m) other i e f = cc

bit-set_byte :
    (pressed : Bytes) (i j : ℕ) (action : KeyAction)
    → length pressed ≡ 32
    → i < 256
    → key_action (
        has_bit
          (byte (set pressed (i / 8) (set_byte (byte pressed (i / 8)) (i % 8) action)) (j / 8))
          (j % 8))
      ≡ (if i == j then action else key_action (has_bit (byte pressed (j / 8)) (j % 8)))
bit-set_byte pressed i j action len small =
    let at =
      get_or-set pressed (i / 8) (j / 8) (set_byte (byte pressed (i / 8)) (i % 8) action)
        (omega arith) in
    elim (Bool-cases (i / 8 == j / 8)) [
      | inl e ↦
          let same : i / 8 ≡ j / 8 = ground arith in
          let bits : (i % 8 == j % 8) ≡ (i == j) = ground arith in
          rw (at, e, has_bit-set_byte (byte pressed (i / 8)) (i % 8) (j % 8) action, bits, same)
      | inr e ↦ let apart : (i == j) ≡ false = ground arith in rw (at, e, apart)
    ]

-- Over the 32 bytes of the compact states, `set_key_down` returns what the key was before; after it that
-- key is as the action says, and every other key is as before, whether a key has a bit or stands in the set.
pub set_key_down_lem :
    (b : InputBatcher) (key other : ℤ) (action : KeyAction)
    → length b.key_states ≡ 32
    → ((set_key_down b key action).1 ≡ key_down b key)
      × (key_down (set_key_down b key action).0 other
          ≡ (if eq_ℤ key other then action else key_down b other))
unfolding set_key_down key_down set_pressed is_pressed
set_key_down_lem b key other action len = elim (Option-cases (key_to_bit key)) [
  | inl e ↦ elim (Option-cases (key_to_bit other)) [
    | inl f ↦ (ground arith, ground (arith, contains-store_key action key other b.key_states_map))
    | inr (j, f) ↦ (ground arith, ground (arith, eq_ℤ_apart other key j f e, eq_ℤ_sym key other))
  ]
  | inr (i, e) ↦ elim (Option-cases (key_to_bit other)) [
    | inl f ↦ (ground arith, ground (arith, eq_ℤ_apart key other i e f))
    | inr (j, f) ↦
        let same = key_to_bit_injective key other i j e f in
        (
          ground arith,
          ground (arith, same, bit-set_byte b.key_states i j action len (key_to_bit-lt key i e)),
        )
  ]
]
