-- ===== src/SlotPool/Examples.antt =====
-- A small `SlotPool`, for tests.
use orteaf.Prelude.{ℕ, Bool, true, false, List, [], ◌∷◌, ltb, arith, refl}
use orteaf.SlotPool.{Handle, Traits, SlotPool, size}
use orteaf.SlotPool.Invariant.{IsValid}

-- Payloads are numbers, the request is the number to create, and the world logs what is destroyed.
abbrev pub make_number : ℕ → ℕ → ℕ → List ℕ → Bool × ℕ × List ℕ
make_number x r c w = (ltb 0 r, r, w)

abbrev pub numbers : Traits ℕ ℕ ℕ (List ℕ)
numbers = record {
  fresh = 0;
  no_request = 0;
  no_context = 0;
  has_generation = true;
  generation_count = 256;
  invalid_index = 4294967295;
  destroy_on_release = false;
  set_handle = λ r h. r;
  create = make_number;
  destroy = λ x r c w. (0, x ∷ w);
}

-- Slot 0 is taken and holds 7; slots 1 and 2 are free, 1 on top and uncreated, 2 created.
abbrev pub three_slots : SlotPool ℕ (List ℕ)
three_slots = record {
  payloads = record { items = 7 ∷ 0 ∷ 9 ∷ []; blocks = 1; capacity = 64; block_size = 64 };
  generations = 255 ∷ 0 ∷ 4 ∷ [];
  created = true ∷ false ∷ true ∷ [];
  freelist = 1 ∷ 2 ∷ [];
  world = [];
}

pub three_slots-IsValid : IsValid numbers three_slots
unfolding size
three_slots-IsValid = record {
  generations_length = refl;
  created_length = refl;
  in_range = omega arith;
  distinct = omega arith;
  addressable = omega arith;
}

abbrev pub held : Handle
held = record { index = 0; generation = 255 }
