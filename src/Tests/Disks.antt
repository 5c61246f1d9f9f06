-- ===== src/Tests/Disks.antt =====
-- kernel/drivers/ahci.c with a disk on port 0 whose adapter answers at once.
use seaweed.Base.{◌+◌, ◌*◌, ◌<◌, ◌≡◌, refl, arith, true}
use seaweed.Base.{inl, some}
use seaweed.Base.{◌<<<◌, bit_and, bit_or}
use seaweed.Base.Bits.{zero-bit_and}
use seaweed.Mm.Layout.{high_vma}
use seaweed.Drivers.Ahci.{HbaPorts, Ahci, Drive, find_cmd, no_cmd_hdr, no_command_table}
use seaweed.Drivers.Ahci.Command.{sata_rw, is_busy, is_running, is_pending}
use seaweed.Drivers.Ahci.Command.Sent.{Settles, lba, sectors, sata_rw_sends}
use seaweed.Base.{if◌then◌else◌, ◌==◌}
use seaweed.Fs.Bfs.{SuperBlock}

-- Slots 0 and 1 are busy.
abbrev disk_port : HbaPorts
disk_port = record {
  clb = 0x8000;
  clbu = 0;
  fb = 0;
  fbu = 0;
  is = 0;
  ie = 0;
  cmd = 0;
  reserved0 = 0;
  tfd = 0;
  sig = 0x101;
  ssts = 0;
  sctl = 0;
  serr = 0;
  sact = 1;
  ci = 2;
  sntf = 0;
  fbs = 0;
  devslp = 0;
  reserved1 = λ k. 0;
  vs = λ k. 0;
}

abbrev disk : Drive
disk = record { sector_count = 0x100000; hba_port = 0 }

abbrev disks : Ahci
disks = record {
  ports = λ n. disk_port;
  headers = λ a n. record no_cmd_hdr { ctba = 0x9000 + n * 0x100 };
  tables = λ a. no_command_table;
  drive = λ n. disk;
  drive_count = 1;
}

-- The adapter is idle whenever the registers are read.
abbrev answers_at_once : HbaPorts → HbaPorts
answers_at_once port = record port { tfd = 0; cmd = 0; ci = 0 }

sata_rw_sends_example :
    (s' : Ahci) × (sata_rw answers_at_once 1 disks disk 0x1234567890 3 (high_vma + 0x4000) true
      ≡ some s')
    × ((find_cmd disk_port < 32)
        × (bit_and (bit_or disk_port.sact disk_port.ci) (1 <<< find_cmd disk_port) ≡ 0))
    × (let header = s'.headers 0x8000 (find_cmd disk_port) in
        let table = s'.tables header.ctba in
        ((header.cfl ≡ 5) × (header.w ≡ 1) × (header.prdtl ≡ 1))
        × (table.cfis.command ≡ 0x35)
        × (sectors table.cfis ≡ 3)
        × (lba table.cfis ≡ 0x34567890)
        × (table.prdt.dbc + 1 ≡ 1536)
        × (table.prdt.dba ≡ 0x4000))
sata_rw_sends_example =
    sata_rw_sends answers_at_once 1 disks disk 0x1234567890 3 0x4000 2 true
      (λ port. unfold Settles is_busy in inl refl) (λ port. unfold Settles is_running in inl refl)
      (λ slot port. unfold Settles is_pending in inl (rw (zero-bit_and (1 <<< slot)) refl))
      (omega arith) (omega arith) (omega arith) (omega arith) (omega arith) refl

-- Two inodes with the names A and B, on sectors 0 and 8 of the files.
abbrev directory : SuperBlock
directory = record {
  signature = 0x69694200;
  block_count = 0x1000;
  inode_count = 64;
  unallocated_inode = 62;
  unallocated_block_cnt = 0x1000;
  block_size = 512;
  inode_size = 32;
  inodes = λ n. record {
    file_name = λ k. if k == 0 then (if n == 0 then 0x41 else 0x42) else 0;
    block_number = n * 8;
    block_count = 8;
    present = 1;
  };
}
