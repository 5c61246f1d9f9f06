-- ===== src/Fs/Bfs.antt =====
-- kernel/fs/bfs.c and bfs.h: the directory of the disk, and reads and writes of files by the sector.
-- What the memory of the super block holds once it is read is the parameter `on_disk`.
pub mod Files
use seaweed.Base.{ℕ, zero, suc, ◌+◌, ◌-◌, ◌*◌, ◌/◌, ◌^◌, ◌==◌, if◌then◌else◌, Bool, true, false}
use seaweed.Base.{not, ◌&&◌, ◌||◌, Option, none, some, ◌>>=◌, [], ◌∷◌}
use seaweed.Base.{u32, u64}
use seaweed.Libk.Text.{Text, strcmp}
use seaweed.Mm.Layout.{high_vma}
use seaweed.Mm.Frames.{Frames, physical_page_alloc}
use seaweed.Drivers.Ahci.{HbaPorts, Drive, Ahci}
use seaweed.Drivers.Ahci.Command.{sata_rw}

abbrev pub magic_number : ℕ
magic_number = 0x69694200

abbrev pub super_block_sector : ℕ
super_block_sector = 0x4000

abbrev pub files_sector : ℕ
files_sector = 0x4000 + 0x200000 / 0x200

-- `inode_t`; `file_name` is the memory from the name on.
pub record Inode : Type 0 where
  pub file_name : ℕ → ℕ
  pub block_number : ℕ
  pub block_count : ℕ
  pub present : ℕ

-- `superBlock_t`
pub record SuperBlock : Type 0 where
  pub signature : ℕ
  pub block_count : ℕ
  pub inode_count : ℕ
  pub unallocated_inode : ℕ
  pub unallocated_block_cnt : ℕ
  pub block_size : ℕ
  pub inode_size : ℕ
  pub inodes : ℕ → Inode

-- The string in a field of `left` bytes, which has its NUL there.
unfoldable pub text_of : (ℕ → ℕ) → ℕ → ℕ → Text
text_of bytes zero i = []
text_of bytes (suc left) i =
    let rest = text_of bytes left (i + 1) in if bytes i == 0 then [] else bytes i ∷ rest

-- The loops over sectors, one call of `sataRW` for each: `left` of them remain from `sector` on, and
-- the data of the next is at `buffer`. `none` is a wait that the fuel does not last for.
unfoldable pub transfer : (HbaPorts → HbaPorts) → ℕ → Drive → Bool → ℕ → ℕ → ℕ → Ahci → Option Ahci
transfer device fuel d w zero sector buffer s = some s
transfer device fuel d w (suc left) sector buffer s =
    sata_rw device fuel s d (u64 sector) 1 (u64 buffer) w
    >>= transfer device fuel d w left (sector + 1) (buffer + 0x200)

-- The loop at the end of `initGFS`: the byte of the name is that at the number of the inode.
unfoldable pub count_inodes : (ℕ → Inode) → ℕ → ℕ → ℕ → ℕ
count_inodes inodes zero i unallocated = unallocated
count_inodes inodes (suc left) i unallocated =
    let file = inodes i in
    let used = not (file.file_name i == 0) && (file.present == 0) in
    count_inodes inodes left (i + 1) (if used then u32 (unallocated + 2 ^ 32 - 1) else unallocated)

-- The sizes that `initGFS` computes, and the count of the inodes.
unfoldable pub mount : SuperBlock → ℕ → SuperBlock
mount b sector_count =
    let blocks = u32 (u64 (sector_count * 512) / b.block_size) in
    let inodes = u32 (0x200000 / b.inode_size) in
    record b {
      block_count = blocks;
      unallocated_block_cnt = blocks;
      inode_count = inodes;
      unallocated_inode = count_inodes b.inodes inodes 0 inodes;
    }

-- `initGFS`; a block or an inode size of 0, by which it divides, is an exception, and `none`.
unfoldable pub init_gfs :
    (HbaPorts → HbaPorts) → ℕ → Ahci → Frames → SuperBlock → Option (Ahci × Frames × SuperBlock)
init_gfs device fuel s f on_disk =
    let (f1, at) = physical_page_alloc f 0x200 in
    let d = s.drive 0 in
    transfer device fuel d false 0x1000 super_block_sector (u64 (at + high_vma)) s >>= λ s1.
    if on_disk.signature == magic_number
    then if on_disk.block_size == 0 || on_disk.inode_size == 0
      then none
      else some (s1, f1, mount on_disk d.sector_count)
    else some (s1, f1, on_disk)

-- The loop of `inodeLookUp`; `none` is the -1 of the source.
unfoldable pub look_up_from : (ℕ → Inode) → Text → ℕ → ℕ → Option ℕ
look_up_from inodes name zero i = none
look_up_from inodes name (suc left) i =
    let rest = look_up_from inodes name left (i + 1) in
    if strcmp (text_of (inodes i).file_name 20 0) name == 0 then some i else rest

unfoldable pub inode_look_up : SuperBlock → Text → Option ℕ
inode_look_up b name =
    look_up_from b.inodes name (u32 (b.inode_count + 2 ^ 32 - b.unallocated_inode)) 0

-- `fopen`
unfoldable pub fopen : (HbaPorts → HbaPorts) → ℕ → SuperBlock → Ahci → Text → ℕ → ℕ → Option Ahci
fopen device fuel b s name buffer inital_size = elim (inode_look_up b name) [
  | none ↦ some s
  | some i ↦
      transfer device fuel (s.drive 0) false inital_size
        (u32 (files_sector + (b.inodes i).block_number)) buffer s
]

-- `writeBack`
unfoldable pub write_back :
    (HbaPorts → HbaPorts) → ℕ → SuperBlock → Ahci → Text → ℕ → ℕ → Option Ahci
write_back device fuel b s name buffer count = elim (inode_look_up b name) [
  | none ↦ some s
  | some i ↦
      transfer device fuel (s.drive 0) true count (u32 (files_sector + (b.inodes i).block_number))
        buffer s
]

-- `readIn`: the loop runs up to `count`, so it reads `count - start` sectors.
unfoldable pub read_in :
    (HbaPorts → HbaPorts) → ℕ → SuperBlock → Ahci → Text → ℕ → ℕ → ℕ → Option Ahci
read_in device fuel b s name buffer start count = elim (inode_look_up b name) [
  | none ↦ some s
  | some i ↦
      transfer device fuel (s.drive 0) false (count - start)
        (u32 (files_sector + (b.inodes i).block_number) + start) buffer s
]
