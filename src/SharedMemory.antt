-- ===== src/SharedMemory.antt =====
-- `shared_memory` of vee/comm/shared_memory.h and comm/shared_memory.cpp. Boost's segments and
-- regions are parameters: a record of what the code calls, over the state of the system.
use vee.Common.{
  ℕ, zero, suc, ◌≡◌, ◌≢◌, inl, inr, refl, subst, Bool, true, false, Option, Option-cases, none,
  some, List, [], arith, if◌then◌else◌,
}

-- `H` is an open segment, `R` a mapped region and `W` the system. A call that has no result throws.
pub record Interprocess (H R W : Type 0) : Type 0 where
  -- `VEE_PLATFORM_WINDOWS`.
  pub windows : Bool
  -- By the option and the name, and on Windows by the size.
  pub open_segment : ℕ → List ℕ → Option ℕ → W → Option H × W
  -- By the offset and the size.
  pub map_region : H → ℕ → ℕ → W → Option R × W
  pub get_address : R → ℕ
  pub unlink : List ℕ → W → Bool × W
  -- The state that a moved segment leaves behind.
  pub fresh : H

-- `create_option`.
abbrev pub create_only : ℕ
create_only = 0

abbrev pub open_or_create : ℕ
open_or_create = 1

pub record XSharedMemory (H R : Type 0) : Type 0 where
  pub shm_name : List ℕ
  pub master_region : R
  pub shm_size : ℕ
  pub shm : H

-- What `create_shared_memory` gives.
pub data Created (M : Type 0) : Type 0 where
  made : M → Created M
  thrown : Created M
  null : Created M

module _ {H R W : Type 0} (boost : Interprocess H R W) where
  -- The constructor from a segment's name and size; none where Boost throws.
  unfoldable pub xshared_memory : List ℕ → ℕ → ℕ → W → Option (XSharedMemory H R) × W
  xshared_memory name size create_opt w =
      let opened : Option H × W =
        boost.open_segment create_opt name (if boost.windows then some size else none) w in
      elim opened.0 [
        | none ↦ (none, opened.1)
        | some shm ↦
            let mapped : Option R × W = boost.map_region shm 0 size opened.1 in
            elim mapped.0 [
              | none ↦ (none, mapped.1)
              | some region ↦ (
                some (record {
                  shm_name = name;
                  master_region = region;
                  shm_size = size;
                  shm = shm;
                }),
                mapped.1,
              )
            ]
      ]

  -- The constructor from an object that is moved, and that object.
  unfoldable pub moved : XSharedMemory H R → W → Option (XSharedMemory H R) × XSharedMemory H R × W
  moved other w =
      let mapped : Option R × W = boost.map_region other.shm 0 other.shm_size w in
      let rest : XSharedMemory H R = record {
        shm_name = [];
        master_region = other.master_region;
        shm_size = other.shm_size;
        shm = boost.fresh;
      } in
      elim mapped.0 [
        | none ↦ (none, rest, mapped.1)
        | some region ↦ (
          some (record {
            shm_name = other.shm_name;
            master_region = region;
            shm_size = other.shm_size;
            shm = other.shm;
          }),
          rest,
          mapped.1,
        )
      ]

  unfoldable pub get_region : XSharedMemory H R → ℕ → ℕ → W → Option R × W
  get_region x offset size w = boost.map_region x.shm offset size w

  -- `remove` of a name, and of an object.
  unfoldable pub remove_name : List ℕ → W → Bool × W
  remove_name name w = elim boost.windows [ true ↦ (false, w) | false ↦ boost.unlink name w ]

  unfoldable pub remove : XSharedMemory H R → W → Bool × W
  unfolding remove_name
  remove x w = remove_name x.shm_name w

  -- The destructor.
  unfoldable pub destroy : XSharedMemory H R → W → W
  unfolding remove
  destroy x w = elim boost.windows [ true ↦ (remove x w).1 | false ↦ w ]

  unfoldable pub address : XSharedMemory H R → ℕ
  address x = boost.get_address x.master_region

  unfoldable pub size_of : XSharedMemory H R → ℕ
  size_of x = x.shm_size

  unfoldable pub key : XSharedMemory H R → List ℕ
  key x = x.shm_name

  -- A case of the switch.
  unfoldable pub create_case : List ℕ → ℕ → ℕ → W → Created (XSharedMemory H R) × W
  unfolding xshared_memory
  create_case name size option w =
      let answer : Option (XSharedMemory H R) × W = xshared_memory name size option w in
      elim answer.0 [ none ↦ (thrown, answer.1) | some x ↦ (made x, answer.1) ]

  unfoldable pub create_shared_memory : List ℕ → ℕ → ℕ → W → Created (XSharedMemory H R) × W
  unfolding create_case
  create_shared_memory name size option w = elim option [
    | zero ↦ create_case name size create_only w
    | suc n ↦ elim n [ zero ↦ create_case name size open_or_create w | suc m ↦ (null, w) ]
  ]

  -- The object of a segment that was opened and mapped.
  pub record Maps (name : List ℕ) (size : ℕ) (option : ℕ) (w : W) (x : XSharedMemory H R)
      : Type 0 where
    pub same_key : key x ≡ name
    pub same_size : size_of x ≡ size
    pub opened :
        (boost.open_segment option name (if boost.windows then some size else none) w).0
        ≡ some x.shm
    pub region :
        (boost.map_region x.shm 0 size
          (boost.open_segment option name (if boost.windows then some size else none) w).1).0
        ≡ some x.master_region

  pub data Creates (name : List ℕ) (size : ℕ) (option : ℕ) (w : W)
      : Created (XSharedMemory H R) → Type 0 where
    as_object :
        (x : XSharedMemory H R) → Maps name size option w x → Creates name size option w (made x)
    not_opened :
        (boost.open_segment option name (if boost.windows then some size else none) w).0 ≡ none
        → Creates name size option w thrown
    not_mapped :
        (h : H)
        → (boost.open_segment option name (if boost.windows then some size else none) w).0 ≡ some h
        → (boost.map_region h 0 size
            (boost.open_segment option name (if boost.windows then some size else none) w).1).0
          ≡ none
        → Creates name size option w thrown
    no_option : option ≢ 0 → option ≢ 1 → Creates name size option w null

  abbrev opened_by : List ℕ → ℕ → ℕ → W → Option H × W
  opened_by name size option w =
      boost.open_segment option name (if boost.windows then some size else none) w

  create_case-Creates :
      (name : List ℕ) (size option : ℕ) (w : W)
      → Creates name size option w (create_case name size option w).0
  unfolding create_case xshared_memory key size_of
  create_case-Creates name size option w = elim (Option-cases (opened_by name size option w).0) [
    | inl shut ↦ subst (Creates name size option w) (ground (arith, shut)) (not_opened shut)
    | inr (h, opened) ↦
        elim (Option-cases (boost.map_region h 0 size (opened_by name size option w).1).0) [
          | inl apart ↦
              subst (Creates name size option w) (ground (arith, opened, apart))
                (not_mapped h opened apart)
          | inr (r, mapped) ↦ subst (Creates name size option w) (ground (arith, opened, mapped)) (
              as_object (record { shm_name = name; master_region = r; shm_size = size; shm = h })
                (record { same_key = refl; same_size = refl; opened = opened; region = mapped }))
        ]
  ]

  -- `create_shared_memory` with one of its two options gives an object with that key and size, of
  -- the segment that Boost opened with that option and of a region of its first `size` bytes, and
  -- throws where one of the two calls does; with any other option it gives a null pointer.
  pub create_shared_memory-Creates :
      (name : List ℕ) (size option : ℕ) (w : W)
      → Creates name size option w (create_shared_memory name size option w).0
  unfolding create_shared_memory
  create_shared_memory-Creates name size zero w = create_case-Creates name size create_only w
  create_shared_memory-Creates name size (suc zero) w =
      create_case-Creates name size open_or_create w
  create_shared_memory-Creates name size (suc (suc n)) w = no_option (omega arith) (omega arith)
