-- ===== src/Keyboard/Tests.antt =====
-- A key of kernel/kbd.cc.
use p12_group.Base.{◌≡◌, true, arith}
use p12_group.Keyboard.{kbd_get}
use p12_group.Keyboard.Keys.{kbd_get-typed}

kbd_get-typed_example : kbd_get 0x10 true ≡ (81, true)
kbd_get-typed_example = kbd_get-typed 0x10 true (omega arith)
