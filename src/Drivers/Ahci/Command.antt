-- ===== src/Drivers/Ahci/Command.antt =====
-- kernel/drivers/ahci.c: sendCommand, sataRW and initSATAdevice.
pub mod Sent
use seaweed.Base.{
  ℕ, zero, suc, ◌+◌, ◌-◌, ◌*◌, ◌/◌, ◌%◌, ◌^◌, ◌<◌, ◌≤◌, ◌≡◌, ◌≢◌, refl, arith, ◌==◌, if◌then◌else◌,
  Bool, true, false, ltb, leb, ==_iff, ltb→lt, leb→le, lt→ltb,
}
use seaweed.Base.{
  Bool-cases, Option-cases, inl, inr, ◌⊎◌, ◌↔◌, not, ◌&&◌, ◌||◌, Option, none, some, ◌>>=◌, sym, ap,
  ◌∙◌, List, [], ◌∷◌, ◌++◌, map,
}
use seaweed.Base.{
  u8, u16, u32, u64, ◌<<<◌, ◌>>>◌, bit_and, bit_or, bit_xor, not32, length, get_elem?, get_or, take,
  drop, replicate, update,
}
use seaweed.Mm.Layout.{high_vma}
use seaweed.Mm.Frames.{Frames, physical_page_alloc}
use seaweed.Drivers.Ahci.{
  HbaPorts, HbaCmdHdr, FisH2d, HbaPrdt, HbaCommandTable, Drive, Ahci, fis_reg_h2d, hba_cmd_st,
  hba_cmd_fre, hba_cmd_cr, no_cmd_hdr, no_fis, no_command_table, find_cmd, add_drive,
}

-- A loop that reads the registers until the test fails; `none` when the fuel has ended.
unfoldable pub poll : (HbaPorts → HbaPorts) → (HbaPorts → Bool) → ℕ → HbaPorts → Option HbaPorts
poll device test zero port = none
poll device test (suc fuel) port =
    let now = device port in
    let rest = poll device test fuel now in if test now then rest else some now

-- The tests of the loops of `sendCommand`.
unfoldable pub is_busy : HbaPorts → Bool
is_busy port = not (bit_and port.tfd (bit_or 0x80 0x8) == 0)

unfoldable pub is_running : HbaPorts → Bool
is_running port = not (bit_and port.cmd hba_cmd_cr == 0)

unfoldable pub is_pending : ℕ → HbaPorts → Bool
is_pending slot port = not (bit_and port.ci (1 <<< slot) == 0)

unfoldable pub stop_port : HbaPorts → HbaPorts
stop_port port = record port { cmd = bit_and port.cmd (not32 hba_cmd_st) }

-- The command is issued.
unfoldable pub issue : HbaPorts → ℕ → HbaPorts
issue port slot = record port {
  cmd = bit_or (bit_or port.cmd hba_cmd_fre) hba_cmd_st;
  ci = u32 (1 <<< slot);
}

unfoldable pub send_command : (HbaPorts → HbaPorts) → ℕ → HbaPorts → ℕ → Option HbaPorts
send_command device fuel port slot = do
  ready ← poll device is_busy fuel port
  stopped ← poll device is_running fuel (stop_port ready)
  done ← poll device (is_pending slot) fuel (issue stopped slot)
  halted ← poll device is_running fuel (stop_port done)
  some (record halted { cmd = bit_and halted.cmd (not32 hba_cmd_fre) })

-- `hbaCMDhdr`, filled in for a command.
unfoldable pub fill_header : HbaCmdHdr → ℕ → HbaCmdHdr
fill_header h w = record h { cfl = 20 / 4; w = w; prdtl = 1 }

-- The table of a command: where the data goes, and the command itself.
unfoldable pub command_table : ℕ → ℕ → FisH2d → HbaCommandTable
command_table dba dbc fis = record no_command_table {
  cfis = fis;
  prdt = record no_command_table.prdt { dba = u32 dba; dbc = dbc % 2 ^ 22; i = 1 };
}

-- The command of `sataRW`; `start` is a 64-bit word and `count` a 32-bit one.
unfoldable pub rw_fis : ℕ → ℕ → Bool → FisH2d
rw_fis start count w = record no_fis {
  fis_type = fis_reg_h2d;
  c = 1;
  command = if w then 0x35 else 0x25;
  lba0 = u8 (bit_and (u32 start) 0xff);
  lba1 = u8 (bit_and (u32 start) 0xff00 >>> 8);
  lba2 = u8 (bit_and (u32 start) 0xff0000 >>> 16);
  device = 1 <<< 6;
  lba3 = u8 (bit_and (u32 start) 0xff000000 >>> 24);
  lba4 = u8 (bit_and (start >>> 32) 0xff00000000);
  lba5 = u8 (bit_and (start >>> 32) 0xff0000000000 >>> 8);
  countl = u8 count;
  counth = u8 (count >>> 8);
}

-- `sataRW` up to its call of `sendCommand`. The first header is zeroed, whichever slot is used.
unfoldable pub prepare_rw : Ahci → Drive → ℕ → ℕ → ℕ → Bool → Ahci
prepare_rw s d start count buffer w =
    let clb = (s.ports d.hba_port).clb in
    let slot = find_cmd (s.ports d.hba_port) in
    let zeroed = update (s.headers clb) 0 no_cmd_hdr in
    let header = fill_header (zeroed slot) (if w then 1 else 0) in
    let table =
      command_table (u64 (buffer + 2 ^ 64 - high_vma)) (u32 (count * 512 + 2 ^ 32 - 1))
        (rw_fis start count w) in
    record s {
      headers = update s.headers clb (update zeroed slot header);
      tables = update s.tables header.ctba table;
    }

unfoldable pub sata_rw : (HbaPorts → HbaPorts) → ℕ → Ahci → Drive → ℕ → ℕ → ℕ → Bool → Option Ahci
sata_rw device fuel s d start count buffer w =
    let s1 = prepare_rw s d start count buffer w in
    let slot = find_cmd (s.ports d.hba_port) in
    elim (send_command device fuel (s1.ports d.hba_port) slot) [
      | none ↦ none
      | some port ↦ some (record s1 { ports = update s1.ports d.hba_port port })
    ]

-- The command of `initSATAdevice`.
abbrev pub identify_fis : FisH2d
identify_fis = record no_fis { command = 0xec; c = 1; fis_type = fis_reg_h2d }

unfoldable pub prepare_identify : Ahci → ℕ → ℕ → Ahci
prepare_identify s n identify =
    let clb = (s.ports n).clb in
    let slot = find_cmd (s.ports n) in
    let header = fill_header (s.headers clb slot) 0 in
    record s {
      headers = update s.headers clb (update (s.headers clb) slot header);
      tables = update s.tables header.ctba (command_table identify 511 identify_fis);
    }

-- `initSATAdevice`; `read` is the 64-bit word at a physical address once the drive has answered, whose
-- words 100 to 103 are the number of sectors.
unfoldable pub init_sata_device :
    (HbaPorts → HbaPorts) → (ℕ → ℕ) → ℕ → Ahci → Frames → ℕ → Option (Ahci × Frames)
init_sata_device device read fuel s f n =
    let slot = find_cmd (s.ports n) in
    let (f1, identify) = physical_page_alloc f 1 in
    let s1 = prepare_identify s n identify in
    elim (send_command device fuel (s1.ports n) slot) [
      | none ↦ none
      | some port ↦ some (
        add_drive (record s1 { ports = update s1.ports n port }) (u64 (read (identify + 200))) n,
        f1,
      )
    ]
