-- ===== src/Input/Restored.antt =====
-- The clipboard after a paste (server/src/input/keyboard/clipboard.c).
use mouse_hero.Base.{ℕ, ◌≡◌, refl, true, false, some, List, ◌∷◌}
use mouse_hero.Input.{Action, Status, is_ok, Device, call, clipboard_set, unsupported_operation}
use mouse_hero.Input.Clipboard.{
  ClipboardConfig, clipboard_paste_text, paste_keys, paste_shortcut, restore, set_error,
}
use mouse_hero.Wire.{Bytes}

-- A paste over a clipboard that held a text ends with that text put back, whatever the keys answered, if
-- pasting is enabled and the new text could be set. If it could not be set, no key is pressed, and the error is that of the clipboard, invalid
-- input or a clipboard error; if pasting is disabled, nothing is called at all.
pub clipboard_paste_text_restores :
    (c : ClipboardConfig) (t : ℕ) (ts old : Bytes) (d : Device)
    → let (s, d1) = call (clipboard_set (t ∷ ts)) d in
      let (e, d2) = clipboard_paste_text c (t ∷ ts) (some old) d in
      (c.enabled ≡ true
        → is_ok s ≡ true
        → (status : Status) × (log : List (Action × Status)) × (d2.log
            ≡ (clipboard_set old, status) ∷ log)
          × (e ≡ (paste_shortcut c d1).0))
      × (c.enabled ≡ true → is_ok s ≡ false → (e ≡ set_error s) × (d2 ≡ d1))
      × (c.enabled ≡ false → (e ≡ unsupported_operation) × (d2 ≡ d))
unfolding clipboard_paste_text paste_keys restore call
clipboard_paste_text_restores c t ts old d =
    let (s, d1) = call (clipboard_set (t ∷ ts)) d in
    let d' = (paste_shortcut c d1).1 in
    (
      λ on set. ((call (clipboard_set old) d').0, d'.log, rw (on, set) refl, rw (on, set) refl),
      λ on failed. (rw (on, failed) refl, rw (on, failed) refl),
      λ off. (rw off refl, rw off refl),
    )
