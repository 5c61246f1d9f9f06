-- ===== src/Drivers/Pci/Laws.antt =====
-- What the scan of a bus finds.
use seaweed.Base.{◌+◌, ◌<◌, ◌≤◌, ◌^◌, arith, ltb, u64, length, get_elem?, update, ◌∙◌}
use seaweed.Base.{ℕ, zero, suc, ◌≡◌, refl, if◌then◌else◌, false}
use seaweed.Base.{Bool-cases, inl, inr, some, List, [], ◌∷◌, ◌++◌}
use seaweed.Drivers.Pci.{
  Pci, PciState, add_pci_device, device_at, is_bridge, is_present, is_multifunction, Visit,
  visit_present, scan_functions, scan_device, scan_devices, check_device, pci_scan_bus,
}

-- The list of devices with more of them, one after the other.
abbrev pub add_all : List Pci → PciState → PciState
add_all [] st = st
add_all (d ∷ ds) st = add_all ds (add_pci_device d st)

add_all-append :
    (ds es : List Pci) (st : PciState) → add_all (ds ++ es) st ≡ add_all es (add_all ds st)
add_all-append [] es st = refl
add_all-append (d ∷ ds) es st = add_all-append ds es (add_pci_device d st)

module _ (config : ℕ → ℕ) (bus : ℕ) where
  -- The device with this function, if one answers there.
  abbrev pub function_found : ℕ → ℕ → List Pci
  function_found device function =
      if is_present config bus device function
      then device_at config bus device function ∷ []
      else []

  -- The functions 1 to `n` that answer.
  abbrev pub functions_found : ℕ → ℕ → List Pci
  functions_found device zero = []
  functions_found device (suc n) = functions_found device n ++ function_found device (suc n)

  -- A device answers by its function 0, and has others only when that says so.
  abbrev pub device_found : ℕ → List Pci
  device_found device =
      if is_present config bus device 0
      then device_at config bus device 0
        ∷ (if is_multifunction config bus device then functions_found device 7 else [])
      else []

  abbrev pub devices_found : ℕ → List Pci
  devices_found zero = []
  devices_found (suc n) = devices_found n ++ device_found n

  -- A visit that adds the function to the list.
  abbrev IsAdding : Visit → Type 0
  IsAdding visit =
      (device function : ℕ) (st : PciState)
      → visit bus device function st
        ≡ some (add_pci_device (device_at config bus device function) st)

  visit_present_found :
      (visit : Visit) (device function : ℕ) (st : PciState)
      → IsAdding visit
      → visit_present visit config bus device function st
        ≡ some (add_all (function_found device function) st)
  visit_present_found visit device function st adding =
      elim (Bool-cases (is_present config bus device function)) [
        | inl there ↦ rw there (adding device function st)
        | inr gone ↦ rw gone refl
      ]

  scan_functions_found :
      (visit : Visit) (device n : ℕ) (st : PciState)
      → IsAdding visit
      → scan_functions visit config bus device n st ≡ some (add_all (functions_found device n) st)
  unfolding scan_functions
  scan_functions_found visit device zero st adding = refl
  scan_functions_found visit device (suc n) st adding =
      rw (scan_functions_found visit device n st adding) (
        rw (add_all-append (functions_found device n) (function_found device (suc n)) st)
          (visit_present_found visit device (suc n) (add_all (functions_found device n) st) adding))

  scan_device_found :
      (visit : Visit) (device : ℕ) (st : PciState)
      → IsAdding visit
      → scan_device visit config bus device st ≡ some (add_all (device_found device) st)
  unfolding scan_device
  scan_device_found visit device st adding = elim (Bool-cases (is_present config bus device 0)) [
    | inl there ↦ rw there (
        rw (adding device 0 st) (elim (Bool-cases (is_multifunction config bus device)) [
          | inl many ↦ rw many (
              scan_functions_found visit device 7
                (add_pci_device (device_at config bus device 0) st) adding)
          | inr one ↦ rw one refl
        ]))
    | inr gone ↦ rw gone refl
  ]

  scan_devices_found :
      (visit : Visit) (n : ℕ) (st : PciState)
      → IsAdding visit
      → scan_devices visit config bus n st ≡ some (add_all (devices_found n) st)
  unfolding scan_devices
  scan_devices_found visit zero st adding = refl
  scan_devices_found visit (suc n) st adding = rw (scan_devices_found visit n st adding) (
      rw (add_all-append (devices_found n) (device_found n) st)
        (scan_device_found visit n (add_all (devices_found n) st) adding))

check_device_plain :
    (fuel : ℕ) (config : ℕ → ℕ) (bus device function : ℕ) (st : PciState)
    → is_bridge config bus device function ≡ false
    → check_device fuel config bus device function st
      ≡ some (add_pci_device (device_at config bus device function) st)
unfolding check_device
check_device_plain zero config bus device function st plain = rw plain refl
check_device_plain (suc fuel) config bus device function st plain = rw plain refl

-- The list is as before, with the devices of `ds` behind, in order.
pub record HasAdded (ds : List Pci) (st after : PciState) : Type 0 where
  pub total : after.total_devices ≡ st.total_devices + length ds
  pub new :
      (k : ℕ) → k < length ds → get_elem? ds k ≡ some (after.pci_devices (st.total_devices + k))
  pub old : (k : ℕ) → k < st.total_devices → after.pci_devices k ≡ st.pci_devices k

add_pci_device-room :
    (d : Pci) (st : PciState)
    → st.total_devices < st.max_size
    → st.max_size < 2 ^ 64
    → add_pci_device d st ≡ record st {
      pci_devices = update st.pci_devices st.total_devices d;
      total_devices = st.total_devices + 1;
    }
unfolding add_pci_device
add_pci_device-room d st room fits =
    let stays : ltb st.max_size st.total_devices ≡ false = ground arith in
    let next : u64 (suc st.total_devices) ≡ st.total_devices + 1 = omega arith in
    rw (stays, next) refl

add_all-HasAdded :
    (ds : List Pci) (st : PciState)
    → st.total_devices + length ds ≤ st.max_size
    → st.max_size < 2 ^ 64
    → HasAdded ds st (add_all ds st)
add_all-HasAdded [] st room fits = record {
  total = omega arith;
  new = λ k lt. absurd (omega arith);
  old = λ k lt. refl;
}
add_all-HasAdded (d ∷ ds) st room fits =
    let mid = record st {
      pci_devices = update st.pci_devices st.total_devices d;
      total_devices = st.total_devices + 1;
    } in
    let rest = add_all-HasAdded ds mid (omega arith) fits in
    rw (add_pci_device-room d st (omega arith) fits) (record {
      total = omega (arith, rest.total);
      new = new_all rest;
      old = λ k lt. rest.old k (omega arith) ∙ ground arith;
    })
  where
    new_all :
        HasAdded ds
          (record st {
            pci_devices = update st.pci_devices st.total_devices d;
            total_devices = st.total_devices + 1;
          })
          (add_all ds (record st {
            pci_devices = update st.pci_devices st.total_devices d;
            total_devices = st.total_devices + 1;
          }))
        → (k : ℕ) → k < suc (length ds)
        → get_elem? (d ∷ ds) k
          ≡ some (
              (add_all ds (record st {
                pci_devices = update st.pci_devices st.total_devices d;
                total_devices = st.total_devices + 1;
              })).pci_devices
                (st.total_devices + k))
    new_all rest zero lt =
        let at : st.total_devices + 0 ≡ st.total_devices = omega arith in
        rw (at, rest.old st.total_devices (omega arith)) (ground arith)
    new_all rest (suc k) lt =
        let at : st.total_devices + suc k ≡ st.total_devices + 1 + k = omega arith in
        rw at (rest.new k (omega arith))

-- On a bus without bridges, where the block has room for the functions that answer, so that it is not
-- grown: the scan ends, whatever the fuel, and leaves the devices found before in their places, and
-- behind them exactly the functions that answer, in the order of their devices and numbers: of a device
-- function 0, and the functions 1 to 7 when function 0 is there and says that the device has several.
pub pci_scan_bus_found :
    (fuel : ℕ) (config : ℕ → ℕ) (bus : ℕ) (st : PciState)
    → ((device function : ℕ) → is_bridge config bus device function ≡ false)
    → st.total_devices + length (devices_found config bus 32) ≤ st.max_size
    → st.max_size < 2 ^ 64
    → (after : PciState) × (pci_scan_bus fuel config bus st ≡ some after)
      × HasAdded (devices_found config bus 32) st after
unfolding pci_scan_bus
pci_scan_bus_found fuel config bus st plain room fits = (
  add_all (devices_found config bus 32) st,
  scan_devices_found config bus (check_device fuel config) 32 st (λ device function st.
      check_device_plain fuel config bus device function st (plain device function)),
  add_all-HasAdded (devices_found config bus 32) st room fits,
)
