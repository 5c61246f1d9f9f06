-- ===== src/Acpi/Rsdp/First.antt =====
-- What findSDT (kernel/acpi/rsdp.c) finds.
use seaweed.Base.{ℕ, zero, suc, ◌+◌, ◌<◌, ◌≤◌, ◌≡◌, refl, arith, ◌==◌}
use seaweed.Base.{Bool-cases, inl, inr, Option, none, some}
use seaweed.Base.{}
use seaweed.Libk.Text.{strncmp}
use seaweed.Acpi.Rsdp.{
  AcpiHdr, Sdt, RootTables, entries, address_of, find_in, find_in_table, find_sdt,
}

module _ (headers : ℕ → AcpiHdr) (signature : ℕ → ℕ) where
  abbrev Matches : Sdt → ℕ → Type 0
  Matches t i = strncmp (headers (address_of t i)).signature signature 4 ≡ 0

  -- The address of the first table from `i` on, before `limit`, with that signature, or none.
  abbrev FirstFrom : Sdt → ℕ → ℕ → Option ℕ → Type 0
  FirstFrom t i limit none = (j : ℕ) → i ≤ j → j < limit → ¬ Matches t j
  FirstFrom t i limit (some a) =
      (k : ℕ) × ((i ≤ k) × (k < limit))
      × (a ≡ address_of t k)
      × Matches t k
      × ((j : ℕ) → i ≤ j → j < k → ¬ Matches t j)

  extend :
      (t : Sdt) (i limit : ℕ) (r : Option ℕ)
      → ¬ Matches t i
      → FirstFrom t (i + 1) limit r
      → FirstFrom t i limit r
  extend t i limit none ne h = λ j lo hi. elim (Bool-cases (i == j)) [
    | inl is ↦ let same : j ≡ i = ground arith in rw same ne
    | inr off ↦ h j (ground arith) hi
  ]
  extend t i limit (some a) ne (k, (lo, hi), is, m, before) = (
    k,
    (omega arith, hi),
    is,
    m,
    λ j lo' hi'. elim (Bool-cases (i == j)) [
      | inl at_i ↦ let same : j ≡ i = ground arith in rw same ne
      | inr off ↦ before j (ground arith) hi'
    ],
  )

  find_in-FirstFrom :
      (t : Sdt) (left i limit : ℕ)
      → i + left ≡ limit
      → FirstFrom t i limit (find_in headers signature t left i)
  unfolding find_in
  find_in-FirstFrom t zero i limit e = λ j lo hi. absurd (omega arith)
  find_in-FirstFrom t (suc left) i limit e =
      let ih = find_in-FirstFrom t left (i + 1) limit (omega arith) in
      elim (Bool-cases (strncmp (headers (address_of t i)).signature signature 4 == 0)) [
        | inl here ↦
            rw here
              (i, (omega arith, omega arith), refl, ground arith, λ j lo hi. absurd (omega arith))
        | inr off ↦ rw off (extend t i limit _ (ground arith) ih)
      ]

  -- The answer of one root table; one that is NULL has none.
  abbrev pub FirstIn : Option Sdt → Option ℕ → Type 0
  FirstIn none r = r ≡ none
  FirstIn (some t) r = FirstFrom t 0 (entries t) r

  find_in_table-FirstIn : (t : Option Sdt) → FirstIn t (find_in_table headers signature t)
  find_in_table-FirstIn none = unfold find_in_table in refl
  find_in_table-FirstIn (some t) =
      unfold find_in_table in find_in-FirstFrom t (entries t) 0 (entries t) (omega arith)

  -- findSDT returns the first table with the signature of those that the longer root table points at,
  -- or else of those of the shorter one, or NULL where neither has any; each is taken to have as many
  -- pointers as it has bytes behind its header.
  pub find_sdt-FirstIn :
      (tables : RootTables)
      → (x : Option ℕ) × (y : Option ℕ) × FirstIn tables.xsdt x
        × FirstIn tables.rsdt y
        × (find_sdt headers tables signature ≡ elim x [ some a ↦ some a | none ↦ y ])
  find_sdt-FirstIn tables = (
    find_in_table headers signature tables.xsdt,
    find_in_table headers signature tables.rsdt,
    find_in_table-FirstIn tables.xsdt,
    find_in_table-FirstIn tables.rsdt,
    unfold find_sdt in refl,
  )
