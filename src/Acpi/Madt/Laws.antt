-- ===== src/Acpi/Madt/Laws.antt =====
-- What the parser reads of a table that is a sequence of structures, and where it stops.
use seaweed.Base.{ℕ, zero, suc, ◌+◌, ◌-◌, ◌^◌, ◌<◌, ◌≤◌, ◌≡◌, refl, arith, true, false, ltb}
use seaweed.Base.{none, some, ◌∙◌, List, [], ◌∷◌}
use seaweed.Base.{u64, length, get_or}
use seaweed.Acpi.Madt.{
  MadtInfo, entry0, entry1, entry2, entry4, entry5, store0, store1, store2, store4, store5,
  store_entry, next_entry, madt_loop, madt_init,
}

-- A structure of the table: its type and the bytes behind its header.
pub record Structure : Type 0 where
  pub kind : ℕ
  pub payload : List ℕ

-- How many bytes the parser reads behind the header of a structure.
abbrev pub needed : ℕ → ℕ
needed zero = 6
needed (suc zero) = 10
needed (suc (suc zero)) = 8
needed (suc (suc (suc zero))) = 0
needed (suc (suc (suc (suc zero)))) = 4
needed (suc (suc (suc (suc (suc zero))))) = 3
needed (suc (suc (suc (suc (suc (suc n)))))) = 0

-- The size fits its byte, and what the parser reads lies inside the structure.
abbrev pub IsStructure : Structure → Type 0
IsStructure e = (length e.payload + 2 < 256) × (needed e.kind ≤ length e.payload)

-- The bytes from `i` to `limit` are these structures, one behind the other.
abbrev pub Holds : (ℕ → ℕ) → ℕ → ℕ → List Structure → Type 0
Holds entries i limit [] = i ≡ limit
Holds entries i limit (e ∷ es) =
    IsStructure e
    × (entries i ≡ e.kind)
    × (entries (i + 1) ≡ length e.payload + 2)
    × ((k : ℕ) → k < length e.payload → entries (i + 2 + k) ≡ get_or e.payload k 0)
    × Holds entries (i + 2 + length e.payload) limit es

-- The information after these structures, from their own bytes.
abbrev pub collect : List Structure → MadtInfo → MadtInfo
collect [] info = info
collect (e ∷ es) info = collect es (store_entry e.kind (λ k. get_or e.payload k 0) info)

-- Two pointers that agree on the bytes that are read store the same entry.
store_entry_agree :
    (kind : ℕ) (p q : ℕ → ℕ) (info : MadtInfo)
    → ((k : ℕ) → k < needed kind → p k ≡ q k)
    → store_entry kind p info ≡ store_entry kind q info
unfolding store_entry store0 store1 store2 store4 store5 entry0 entry1 entry2 entry4 entry5
store_entry_agree zero p q info agree = simp (
  agree 0 (omega arith),
  agree 1 (omega arith),
  agree 2 (omega arith),
  agree 3 (omega arith),
  agree 4 (omega arith),
  agree 5 (omega arith),
)
store_entry_agree (suc zero) p q info agree = simp (
  agree 0 (omega arith),
  agree 1 (omega arith),
  agree 2 (omega arith),
  agree 3 (omega arith),
  agree 4 (omega arith),
  agree 5 (omega arith),
  agree 6 (omega arith),
  agree 7 (omega arith),
  agree 8 (omega arith),
  agree 9 (omega arith),
)
store_entry_agree (suc (suc zero)) p q info agree = simp (
  agree 0 (omega arith),
  agree 1 (omega arith),
  agree 2 (omega arith),
  agree 3 (omega arith),
  agree 4 (omega arith),
  agree 5 (omega arith),
  agree 6 (omega arith),
  agree 7 (omega arith),
)
store_entry_agree (suc (suc (suc zero))) p q info agree = refl
store_entry_agree (suc (suc (suc (suc zero)))) p q info agree =
    simp
      (agree 0 (omega arith), agree 1 (omega arith), agree 2 (omega arith), agree 3 (omega arith))
store_entry_agree (suc (suc (suc (suc (suc zero))))) p q info agree =
    simp (agree 0 (omega arith), agree 1 (omega arith), agree 2 (omega arith))
store_entry_agree (suc (suc (suc (suc (suc (suc n)))))) p q info agree = refl

next_entry_size :
    (i size : ℕ) → 1 ≤ size → size < 256 → i + size < 2 ^ 63 → next_entry i size ≡ i + size
unfolding next_entry
next_entry_size i size le lt bound = omega arith

next_entry_zero : (i : ℕ) → i < 2 ^ 63 → next_entry i 0 ≡ i
unfolding next_entry
next_entry_zero i lt = omega arith

Holds-le :
    (entries : ℕ → ℕ) (i limit : ℕ) (es : List Structure) → Holds entries i limit es → i ≤ limit
Holds-le entries i limit [] at = omega arith
Holds-le entries i limit (e ∷ es) (_, _, _, _, rest) =
    omega (arith, Holds-le entries (i + 2 + length e.payload) limit es rest)

-- The bytes of a structure, as the parser reads them.
store_entry-Holds :
    (entries : ℕ → ℕ) (i : ℕ) (e : Structure) (info : MadtInfo)
    → IsStructure e
    → i + 2 < 2 ^ 63
    → entries i ≡ e.kind
    → ((k : ℕ) → k < length e.payload → entries (i + 2 + k) ≡ get_or e.payload k 0)
    → store_entry (entries i) (λ k. entries (u64 (i + 2) + k)) info
      ≡ store_entry e.kind (λ k. get_or e.payload k 0) info
store_entry-Holds entries i e info (_, long) bound kind bytes =
    let at : u64 (i + 2) ≡ i + 2 = omega arith in
    rw kind (
      rw at (
        store_entry_agree e.kind (λ k. entries (i + 2 + k)) (λ k. get_or e.payload k 0) info
          (λ k lt. bytes k (omega arith))))

madt_loop-collect :
    (es : List Structure) (fuel : ℕ) (entries : ℕ → ℕ) (limit i : ℕ) (info : MadtInfo)
    → length es ≤ fuel
    → limit < 2 ^ 62
    → Holds entries i limit es
    → madt_loop fuel entries limit i info ≡ some (collect es info)
unfolding madt_loop
madt_loop-collect [] zero entries limit i info enough small at =
    let ended : ltb i limit ≡ false = ground arith in rw ended refl
madt_loop-collect [] (suc fuel) entries limit i info enough small at =
    let ended : ltb i limit ≡ false = ground arith in rw ended refl
madt_loop-collect (e ∷ es) zero entries limit i info enough small at = elim enough [ ]
madt_loop-collect (e ∷ es) (suc fuel) entries limit i info enough small
      (valid, kind, size, bytes, rest) =
    let (short, _) = valid in
    let after = Holds-le entries (i + 2 + length e.payload) limit es rest in
    let going : ltb i limit ≡ true = ground (arith, after) in
    let at : u64 (i + 1) ≡ i + 1 = omega (arith, after) in
    let next : next_entry i (length e.payload + 2) ≡ i + 2 + length e.payload =
      next_entry_size i (length e.payload + 2) (omega arith) short (omega (arith, after))
      ∙ omega arith in
    rw going (
      rw at (
        rw size (
          rw next (
            rw (store_entry-Holds entries i e info valid (omega (arith, after)) kind bytes) (
              madt_loop-collect es fuel entries limit (i + 2 + length e.payload)
                (store_entry e.kind (λ k. get_or e.payload k 0) info) (omega arith) small rest)))))

-- On a table that is a sequence of structures, each long enough for what is read of it, `madtInit`
-- ends within one round for each structure, and the information is what the structures, in their
-- order and each by its own bytes, add to what was there.
pub madt_init-collect :
    (es : List Structure) (fuel header_length lapic : ℕ) (entries : ℕ → ℕ) (info : MadtInfo)
    → 44 ≤ header_length
    → header_length < 2 ^ 32
    → Holds entries 0 (header_length - 44) es
    → length es ≤ fuel
    → madt_init fuel header_length lapic entries info
      ≡ some (collect es (record info { lapic_addr = lapic }))
unfolding madt_init
madt_init-collect es fuel header_length lapic entries info le lt holds enough =
    let limit : u64 (2 ^ 64 + header_length - 44) ≡ header_length - 44 = omega arith in
    rw limit (
      madt_loop-collect es fuel entries (header_length - 44) 0 (record info { lapic_addr = lapic })
        enough (omega arith) holds)

-- Where the size byte of a structure is 0, the loop stays at that structure: no fuel is enough.
pub madt_loop_stuck :
    (fuel : ℕ) (entries : ℕ → ℕ) (limit i : ℕ) (info : MadtInfo)
    → i < limit
    → limit < 2 ^ 62
    → entries (i + 1) ≡ 0
    → madt_loop fuel entries limit i info ≡ none
unfolding madt_loop
madt_loop_stuck zero entries limit i info lt small size =
    let going : ltb i limit ≡ true = ground arith in rw going refl
madt_loop_stuck (suc fuel) entries limit i info lt small size =
    let going : ltb i limit ≡ true = ground arith in
    let at : u64 (i + 1) ≡ i + 1 = omega arith in
    rw going (
      rw at (
        rw size (
          rw (next_entry_zero i (omega arith)) (
            madt_loop_stuck fuel entries limit i
              (store_entry (entries i) (λ k. entries (u64 (i + 2) + k)) info) lt small size))))
