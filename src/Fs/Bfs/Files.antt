-- ===== src/Fs/Bfs/Files.antt =====
-- The file that a name stands for, and the sectors of it that are read (kernel/fs/bfs.c).
use seaweed.Base.{ℕ, zero, suc, ◌+◌, ◌*◌, ◌<◌, ◌≡◌, Bool}
use seaweed.Base.{some}
use seaweed.Base.{u64}
use seaweed.Libk.Text.{Text}
use seaweed.Drivers.Ahci.{HbaPorts, Drive, Ahci}
use seaweed.Drivers.Ahci.Command.{is_busy, is_running, is_pending, sata_rw}
use seaweed.Drivers.Ahci.Command.Sent.{Settles}
use seaweed.Fs.Bfs.{Inode, text_of, transfer}

-- The string in an inode's field.
abbrev pub name_of : Inode → Text
name_of file = text_of file.file_name 20 0

-- The adapter goes through the states from `s` on by one sataRW for each of `left` sectors, in order:
-- the i-th is for the sector behind the one before, and for the next 512 bytes of the buffer.
abbrev pub Sends : (HbaPorts → HbaPorts) → ℕ → Drive → Bool → ℕ → ℕ → ℕ → Ahci → (ℕ → Ahci) → Type 0
Sends device fuel d w left sector buffer s states =
    (states 0 ≡ s)
    × ((i : ℕ)
        → i < left
        → sata_rw device fuel (states i) d (u64 (sector + i)) 1 (u64 (buffer + i * 0x200)) w
          ≡ some (states (i + 1)))

module _ (device : HbaPorts → HbaPorts) (fuel : ℕ)
    (ready : (port : HbaPorts) → Settles device is_busy fuel port)
    (stops : (port : HbaPorts) → Settles device is_running fuel port)
    (answers : (slot : ℕ) (port : HbaPorts) → Settles device (is_pending slot) fuel port) where
  -- The states between the commands of a transfer.
  record Trace (d : Drive) (w : Bool) (left sector buffer : ℕ) (s : Ahci) : Type 0 where
    pub states : ℕ → Ahci
    pub first : states 0 ≡ s
    pub last : transfer device fuel d w left sector buffer s ≡ some (states left)
    pub each :
        (i : ℕ)
        → i < left
        → sata_rw device fuel (states i) d (u64 (sector + i)) 1 (u64 (buffer + i * 0x200)) w
          ≡ some (states (i + 1))

  states_from : Ahci → (ℕ → Ahci) → ℕ → Ahci
  states_from s rest zero = s
  states_from s rest (suc i) = rest i
