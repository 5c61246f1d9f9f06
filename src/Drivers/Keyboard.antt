-- ===== src/Drivers/Keyboard.antt =====
-- kernel/drivers/keyboard.c: the handler of the keyboard and its maps, which it does not use yet.
use seaweed.Base.{ℕ, ◌==◌, if◌then◌else◌, Bool, true, false}
use seaweed.Base.{}
use seaweed.Base.{}

-- `keyboardHandlerMain`: the flag `upkey` after the code, which is a byte.
unfoldable pub keyboard_handler_main : Bool → ℕ → Bool
keyboard_handler_main upkey keycode =
    if keycode == 0xaa then false else if keycode == 0x2a then true else upkey
