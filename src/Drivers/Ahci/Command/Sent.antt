-- ===== src/Drivers/Ahci/Command/Sent.antt =====
-- What sataRW (kernel/drivers/ahci.c) sends to the drive.
use seaweed.Base.{
  ℕ, zero, suc, ◌+◌, ◌-◌, ◌*◌, ◌/◌, ◌%◌, ◌^◌, ◌<◌, ◌≤◌, ◌≡◌, ◌≢◌, refl, arith, ◌==◌, if◌then◌else◌,
  Bool, false,
}
use seaweed.Base.{Bool-cases, inl, inr, ◌⊎◌, some, ap, ◌∙◌}
use seaweed.Base.{u32, u64, ◌<<<◌, bit_and, bit_or, not32, update}
use seaweed.Base.Bits.{bit_and_byte}
use seaweed.Mm.Layout.{high_vma}
use seaweed.Drivers.Ahci.{
  hba_cmd_fre, HbaPorts, HbaCmdHdr, FisH2d, Drive, Ahci, find_free_slot, find_cmd,
}
use seaweed.Drivers.Ahci.Command.{
  poll, is_busy, is_running, is_pending, stop_port, issue, send_command, fill_header, command_table,
  rw_fis, prepare_rw, sata_rw,
}

-- The adapter makes the test fail within `n` reads.
unfoldable pub Settles : (HbaPorts → HbaPorts) → (HbaPorts → Bool) → ℕ → HbaPorts → Type 0
Settles device test zero port = ⊥
Settles device test (suc n) port =
    (test (device port) ≡ false) ⊎ Settles device test n (device port)

poll-Settles :
    (device : HbaPorts → HbaPorts) (test : HbaPorts → Bool) (fuel : ℕ) (port : HbaPorts)
    → Settles device test fuel port
    → (port' : HbaPorts) × (poll device test fuel port ≡ some port')
unfolding poll Settles
poll-Settles device test zero port never = absurd never
poll-Settles device test (suc fuel) port (inl now) = (device port, rw now refl)
poll-Settles device test (suc fuel) port (inr later) = elim (Bool-cases (test (device port))) [
  | inl again ↦ let (p, e) = poll-Settles device test fuel (device port) later in (p, rw again e)
  | inr done ↦ (device port, rw done refl)
]

module _ (device : HbaPorts → HbaPorts) (fuel : ℕ)
    (ready : (port : HbaPorts) → Settles device is_busy fuel port)
    (stops : (port : HbaPorts) → Settles device is_running fuel port)
    (answers : (slot : ℕ) (port : HbaPorts) → Settles device (is_pending slot) fuel port) where
  pub send_command-some :
      (port : HbaPorts) (slot : ℕ)
      → (port' : HbaPorts) × (send_command device fuel port slot ≡ some port')
  unfolding send_command
  send_command-some port slot =
      let (p1, e1) = poll-Settles device is_busy fuel port (ready port) in
      let (p2, e2) = poll-Settles device is_running fuel (stop_port p1) (stops (stop_port p1)) in
      let (p3, e3) =
        poll-Settles device (is_pending slot) fuel (issue p2 slot) (answers slot (issue p2 slot)) in
      let (p4, e4) = poll-Settles device is_running fuel (stop_port p3) (stops (stop_port p3)) in
      (record p4 { cmd = bit_and p4.cmd (not32 hba_cmd_fre) }, rw (e1, e2, e3, e4) refl)

-- The slot that the loop finds is free, where one is.
find_free_slot-free :
    (busy left i j : ℕ)
    → i ≤ j
    → j < i + left
    → bit_and busy (1 <<< j) ≡ 0
    → let slot = find_free_slot busy left i in (slot < i + left) × (bit_and busy (1 <<< slot) ≡ 0)
find_free_slot-free busy zero i j lo hi e = absurd (omega arith)
find_free_slot-free busy (suc left) i j lo hi e =
    let step : find_free_slot busy (suc left) i
        ≡ (if bit_and busy (1 <<< i) == 0 then i else find_free_slot busy left (i + 1)) =
      unfold find_free_slot in refl in
    elim (Bool-cases (bit_and busy (1 <<< i) == 0)) [
      | inl here ↦
          let at_i : find_free_slot busy (suc left) i ≡ i = rw here at step in
          rw at_i (omega arith, ground arith)
      | inr off ↦
          let behind : find_free_slot busy (suc left) i ≡ find_free_slot busy left (i + 1) =
            rw off at step in
          let later : i ≢ j = λ same.
            let here : bit_and busy (1 <<< i) ≡ 0 =
              ap (λ (x : ℕ). bit_and busy (1 <<< x)) same ∙ e in
            ground arith in
          let (below, free) =
            find_free_slot-free busy left (i + 1) j (omega (arith, later)) (omega arith) e in
          rw behind (omega (arith, below), free)
    ]

-- The address of the first sector and the number of sectors, as a drive reads a command with 48-bit
-- addresses.
abbrev pub lba : FisH2d → ℕ
lba fis =
    fis.lba0
    + fis.lba1 * 2 ^ 8
    + fis.lba2 * 2 ^ 16
    + fis.lba3 * 2 ^ 24
    + fis.lba4 * 2 ^ 32
    + fis.lba5 * 2 ^ 40

abbrev pub sectors : FisH2d → ℕ
sectors fis = fis.countl + fis.counth * 2 ^ 8

lba-rw_fis :
    (start count : ℕ) (w : Bool) → start < 2 ^ 64 → lba (rw_fis start count w) ≡ start % 2 ^ 32
unfolding rw_fis
lba-rw_fis start count w word =
    let n = start % 2 ^ 32 in
    let high = start / 2 ^ 32 in
    let b0 : bit_and n 0xff ≡ n % 2 ^ 8 = bit_and_byte 0 n ∙ omega arith in
    let b1 : bit_and n 0xff00 ≡ n / 2 ^ 8 % 2 ^ 8 * 2 ^ 8 = bit_and_byte 8 n in
    let b2 : bit_and n 0xff0000 ≡ n / 2 ^ 16 % 2 ^ 8 * 2 ^ 16 = bit_and_byte 16 n in
    let b3 : bit_and n 0xff000000 ≡ n / 2 ^ 24 % 2 ^ 8 * 2 ^ 24 = bit_and_byte 24 n in
    let b4 : bit_and high 0xff00000000 ≡ high / 2 ^ 32 % 2 ^ 8 * 2 ^ 32 = bit_and_byte 32 high in
    let b5 : bit_and high 0xff0000000000 ≡ high / 2 ^ 40 % 2 ^ 8 * 2 ^ 40 = bit_and_byte 40 high in
    rw (b0, b1, b2, b3, b4, b5) (omega arith)

-- What `sataRW` leaves in memory for the adapter.
module _ (s : Ahci) (d : Drive) (start count physical : ℕ) (w : Bool) (word : start < 2 ^ 64)
    (some_sectors : 0 < count) (few : count ≤ 2 ^ 13) (fits : physical < 2 ^ 47) where
  abbrev port : HbaPorts
  port = s.ports d.hba_port

  abbrev sent : Ahci
  sent = prepare_rw s d start count (high_vma + physical) w

  abbrev header : HbaCmdHdr
  header = sent.headers port.clb (find_cmd port)

  sent_header : (header.cfl ≡ 5) × (header.w ≡ (if w then 1 else 0)) × (header.prdtl ≡ 1)
  sent_header = unfold prepare_rw fill_header in ground arith

  sent_table :
      sent.tables header.ctba
      ≡ command_table physical (u32 (count * 512 + 2 ^ 32 - 1)) (rw_fis start count w)
  sent_table =
      let address : u64 (high_vma + physical + 2 ^ 64 - high_vma) ≡ physical = omega arith in
      unfold prepare_rw fill_header in rw address (ground arith)

  sent_command :
      let table = sent.tables header.ctba in
      (table.cfis.command ≡ (if w then 0x35 else 0x25))
      × (sectors table.cfis ≡ count)
      × (lba table.cfis ≡ start % 2 ^ 32)
      × (table.prdt.dbc + 1 ≡ count * 512)
      × (table.prdt.dba ≡ physical % 2 ^ 32)
  sent_command = rw sent_table (
    unfold command_table rw_fis in refl,
    unfold command_table rw_fis in omega arith,
    unfold command_table in lba-rw_fis start count w word,
    unfold command_table in omega arith,
    unfold command_table in refl,
  )

pub sata_rw-some :
    (device : HbaPorts → HbaPorts) (fuel : ℕ) (s : Ahci) (d : Drive) (start count buffer : ℕ)
    (w : Bool) (p : HbaPorts)
    → let after = prepare_rw s d start count buffer w in
      send_command device fuel (after.ports d.hba_port) (find_cmd (s.ports d.hba_port)) ≡ some p
      → sata_rw device fuel s d start count buffer w
        ≡ some (record after { ports = update after.ports d.hba_port p })
unfolding sata_rw
sata_rw-some device fuel s d start count buffer w p done = rw (done, sata_rw) refl

-- sataRW of 1 to 2^13 sectors, from or to a physical address seen through HIGH_VMA, on an adapter
-- that ends each of its loops within the fuel and has a free slot: it returns; the header of a free
-- slot announces one command of five words, a write or a read as asked, and its table holds that
-- command for all the sectors, with the right number of bytes; but the address of the first sector
-- and that of the data are sent modulo 2^32.
pub sata_rw_sends :
    (device : HbaPorts → HbaPorts) (fuel : ℕ) (s : Ahci) (d : Drive) (start count physical j : ℕ)
    (w : Bool)
    → ((port : HbaPorts) → Settles device is_busy fuel port)
    → ((port : HbaPorts) → Settles device is_running fuel port)
    → ((slot : ℕ) (port : HbaPorts) → Settles device (is_pending slot) fuel port)
    → start < 2 ^ 64
    → 0 < count
    → count ≤ 2 ^ 13
    → physical < 2 ^ 47
    → j < 32
    → let port = s.ports d.hba_port in
      let slot = find_cmd port in
      bit_and (bit_or port.sact port.ci) (1 <<< j) ≡ 0
      → (s' : Ahci) × (sata_rw device fuel s d start count (high_vma + physical) w ≡ some s')
        × ((slot < 32) × (bit_and (bit_or port.sact port.ci) (1 <<< slot) ≡ 0))
        × (let header = s'.headers port.clb slot in
            let table = s'.tables header.ctba in
            ((header.cfl ≡ 5) × (header.w ≡ (if w then 1 else 0)) × (header.prdtl ≡ 1))
            × (table.cfis.command ≡ (if w then 0x35 else 0x25))
            × (sectors table.cfis ≡ count)
            × (lba table.cfis ≡ start % 2 ^ 32)
            × (table.prdt.dbc + 1 ≡ count * 512)
            × (table.prdt.dba ≡ physical % 2 ^ 32))
sata_rw_sends device fuel s d start count physical j w ready stops answers word pos few fits below
      free =
    let port = s.ports d.hba_port in
    let after = sent s d start count physical w word pos few fits in
    let (p, done) =
      send_command-some device fuel ready stops answers (after.ports d.hba_port) (find_cmd port) in
    let header_is = sent_header s d start count physical w word pos few fits in
    let (command, number, first, bytes, address) =
      sent_command s d start count physical w word pos few fits in
    (
      record after { ports = update after.ports d.hba_port p },
      sata_rw-some device fuel s d start count (high_vma + physical) w p done,
      unfold find_cmd in
          find_free_slot-free (bit_or port.sact port.ci) 32 0 j (omega arith) (omega arith) free,
      (header_is, command, number, first, bytes, address),
    )
