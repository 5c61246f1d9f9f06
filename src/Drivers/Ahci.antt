-- ===== src/Drivers/Ahci.antt =====
-- kernel/drivers/ahci.c and ahci.h: the disks behind a host bus adapter. The adapter is hardware: what
-- it does to the registers of a port between two reads of them is the parameter `device`.
pub mod Command
pub mod Scan
use seaweed.Base.{
  ℕ, zero, suc, ◌+◌, ◌-◌, ◌*◌, ◌/◌, ◌%◌, ◌^◌, ◌<◌, ◌≤◌, ◌≡◌, ◌≢◌, refl, arith, ◌==◌, if◌then◌else◌,
  Bool, true, false, ltb, leb, ==_iff, ltb→lt, leb→le, lt→ltb,
}
use seaweed.Base.{
  Bool-cases, Option-cases, inl, inr, ◌⊎◌, ◌↔◌, not, ◌&&◌, ◌||◌, Option, none, some, sym, ap, ◌∙◌,
  List, [], ◌∷◌, ◌++◌, map,
}
use seaweed.Base.{
  u8, u16, u32, u64, ◌<<<◌, ◌>>>◌, bit_and, bit_or, bit_xor, not32, length, get_elem?, get_or, take,
  drop, replicate, update,
}
use seaweed.Mm.Layout.{high_vma}

-- `hbaPorts_t`, the registers of a port.
pub record HbaPorts : Type 0 where
  pub clb : ℕ
  pub clbu : ℕ
  pub fb : ℕ
  pub fbu : ℕ
  pub is : ℕ
  pub ie : ℕ
  pub cmd : ℕ
  pub reserved0 : ℕ
  pub tfd : ℕ
  pub sig : ℕ
  pub ssts : ℕ
  pub sctl : ℕ
  pub serr : ℕ
  pub sact : ℕ
  pub ci : ℕ
  pub sntf : ℕ
  pub fbs : ℕ
  pub devslp : ℕ
  pub reserved1 : ℕ → ℕ
  pub vs : ℕ → ℕ

-- `hbaCMDhdr_t`, the header of a command.
pub record HbaCmdHdr : Type 0 where
  pub cfl : ℕ
  pub a : ℕ
  pub w : ℕ
  pub p : ℕ
  pub r : ℕ
  pub b : ℕ
  pub c : ℕ
  pub reserved0 : ℕ
  pub pmp : ℕ
  pub prdtl : ℕ
  pub prdbc : ℕ
  pub ctba : ℕ
  pub ctbau : ℕ
  pub rsv1 : ℕ → ℕ

-- `fisH2D_t`, the command as it goes to the drive.
pub record FisH2d : Type 0 where
  pub fis_type : ℕ
  pub pmport : ℕ
  pub reserved0 : ℕ
  pub c : ℕ
  pub command : ℕ
  pub featurel : ℕ
  pub lba0 : ℕ
  pub lba1 : ℕ
  pub lba2 : ℕ
  pub device : ℕ
  pub lba3 : ℕ
  pub lba4 : ℕ
  pub lba5 : ℕ
  pub featureh : ℕ
  pub countl : ℕ
  pub counth : ℕ
  pub icc : ℕ
  pub control : ℕ
  pub reserved1 : ℕ

-- `hbaPRDT_t`, where the data goes.
pub record HbaPrdt : Type 0 where
  pub dba : ℕ
  pub dbau : ℕ
  pub reserved0 : ℕ
  pub dbc : ℕ
  pub reserved1 : ℕ
  pub i : ℕ

-- `hbaCommandTable_t`; the bytes of `cfis` behind the command are `cfis_rest`.
pub record HbaCommandTable : Type 0 where
  pub cfis : FisH2d
  pub cfis_rest : ℕ → ℕ
  pub acmd : ℕ → ℕ
  pub reserved : ℕ → ℕ
  pub prdt : HbaPrdt

-- `drive_t`, with the number of the port that its pointer points at.
pub record Drive : Type 0 where
  pub sector_count : ℕ
  pub hba_port : ℕ

abbrev pub fis_reg_h2d : ℕ
fis_reg_h2d = 0x27

abbrev pub hba_cmd_st : ℕ
hba_cmd_st = 0x0001

abbrev pub hba_cmd_fre : ℕ
hba_cmd_fre = 0x0010

abbrev pub hba_cmd_cr : ℕ
hba_cmd_cr = 0x8000

-- What `memset` with 0 makes of each structure.
abbrev pub no_cmd_hdr : HbaCmdHdr
no_cmd_hdr = record {
  cfl = 0;
  a = 0;
  w = 0;
  p = 0;
  r = 0;
  b = 0;
  c = 0;
  reserved0 = 0;
  pmp = 0;
  prdtl = 0;
  prdbc = 0;
  ctba = 0;
  ctbau = 0;
  rsv1 = λ k. 0;
}

abbrev pub no_fis : FisH2d
no_fis = record {
  fis_type = 0;
  pmport = 0;
  reserved0 = 0;
  c = 0;
  command = 0;
  featurel = 0;
  lba0 = 0;
  lba1 = 0;
  lba2 = 0;
  device = 0;
  lba3 = 0;
  lba4 = 0;
  lba5 = 0;
  featureh = 0;
  countl = 0;
  counth = 0;
  icc = 0;
  control = 0;
  reserved1 = 0;
}

abbrev pub no_command_table : HbaCommandTable
no_command_table = record {
  cfis = no_fis;
  cfis_rest = λ k. 0;
  acmd = λ k. 0;
  reserved = λ k. 0;
  prdt = record { dba = 0; dbau = 0; reserved0 = 0; dbc = 0; reserved1 = 0; i = 0 };
}

-- The ports, and the structures in memory: the headers at `clb` and the tables at `ctba`, by their
-- physical addresses, which do not overlap; and the globals `drive` and `driveCount`.
pub record Ahci : Type 0 where
  pub ports : ℕ → HbaPorts
  pub headers : ℕ → ℕ → HbaCmdHdr
  pub tables : ℕ → HbaCommandTable
  pub drive : ℕ → Drive
  pub drive_count : ℕ

-- The loop of `findCMD`.
unfoldable pub find_free_slot : ℕ → ℕ → ℕ → ℕ
find_free_slot busy zero i = 0
find_free_slot busy (suc left) i =
    let rest = find_free_slot busy left (i + 1) in if bit_and busy (1 <<< i) == 0 then i else rest

unfoldable pub find_cmd : HbaPorts → ℕ
find_cmd port = find_free_slot (bit_or port.sact port.ci) 32 0

-- `addDrive`
unfoldable pub add_drive : Ahci → ℕ → ℕ → Ahci
add_drive s sector_count port = record s {
  drive = update s.drive s.drive_count (record { sector_count = sector_count; hba_port = port });
  drive_count = u64 (s.drive_count + 1);
}
