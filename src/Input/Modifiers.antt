-- ===== src/Input/Modifiers.antt =====
-- Modifier keys of the Linux build (server/src/input/keyboard/handler.c): which to hold, and pressing
-- and releasing them. The five stages of press_modifiers_unified are one function over the modifiers
-- in their order; `pressed_state` is the list of those that it holds, the last one first, so its
-- rollback and release_modifiers_unified go through that list.
use Prim.Native.Nat.{bit_or}
use mouse_hero.Base.{ℕ, ◌/◌, ◌%◌, ◌^◌, Bool, true, false, ◌||◌, List, [], ◌∷◌, ◌==◌, if◌then◌else◌}
use mouse_hero.Input.{
  CDirection, press, release, key_alt, key_control, key_meta, key_shift, YaError, success,
  platform_error, is_success, is_ok, Device, input_key_action, input_linux_key_action_raw,
}

-- `mask & (1 << k)`
abbrev pub has_bit : ℕ → ℕ → Bool
has_bit mask k = mask / 2 ^ k % 2 == 1

-- CHORD_MOD_SHIFT, CHORD_MOD_CTRL, CHORD_MOD_ALT and CHORD_MOD_META of server/src/ya_event.h
abbrev pub chord_shift : ℕ → Bool
chord_shift mods = has_bit mods 0

abbrev pub chord_ctrl : ℕ → Bool
chord_ctrl mods = has_bit mods 1

abbrev pub chord_alt : ℕ → Bool
chord_alt mods = has_bit mods 2

abbrev pub chord_meta : ℕ → Bool
chord_meta mods = has_bit mods 3

-- `if (test) mask |= 1 << k`
abbrev pub or_if : Bool → ℕ → ℕ → ℕ
or_if test k mask = if test then bit_or mask (2 ^ k) else mask

unfoldable pub merge_modifiers : ℕ → ℕ → ℕ
merge_modifiers user_mods xkb_mods = or_if (chord_meta user_mods || has_bit xkb_mods 3) 3 (
    or_if (chord_ctrl user_mods || has_bit xkb_mods 2) 2
      (or_if (has_bit xkb_mods 1) 1 (or_if (chord_shift user_mods || has_bit xkb_mods 0) 0 0)))

-- The mask that input_function_key_linux makes of the client's modifiers.
unfoldable pub function_key_mask : ℕ → ℕ
function_key_mask user_mods =
    or_if (chord_meta user_mods) 3
      (or_if (chord_ctrl user_mods) 2 (or_if (chord_shift user_mods) 0 0))

pub data Modifier : Type 0 where
  shift alt_gr ctrl meta alt : Modifier

-- KEY_RIGHTALT
abbrev pub key_rightalt : ℕ
key_rightalt = 100

abbrev with_status : Device → Bool → YaError × Device
with_status d true = (success, d)
with_status d false = (platform_error, d)

-- One key of a modifier; AltGr is a raw key, and any failure of it is PlatformError.
unfoldable pub modifier_key : Modifier → CDirection → Device → YaError × Device
modifier_key shift dir d = input_key_action key_shift dir d
modifier_key alt_gr dir d =
    let (s, d') = input_linux_key_action_raw key_rightalt dir d in with_status d' (is_ok s)
modifier_key ctrl dir d = input_key_action key_control dir d
modifier_key meta dir d = input_key_action key_meta dir d
modifier_key alt dir d = input_key_action key_alt dir d

-- release_modifiers_unified, and the releases of a rollback: their results are not looked at.
unfoldable pub release_modifiers : List Modifier → Device → Device
release_modifiers [] d = d
release_modifiers (m ∷ held) d = release_modifiers held (modifier_key m release d).1

unfoldable pub press_from :
    List (Modifier × Bool) → List Modifier → Device → YaError × List Modifier × Device
press_from [] held d = (success, held, d)
press_from ((m, wanted) ∷ ms) held d =
    let (e, d') = modifier_key m press d in
    let pressed = press_from ms (m ∷ held) d' in
    let skipped = press_from ms held d in
    if wanted
    then (if is_success e then pressed else (e, [], release_modifiers held d'))
    else skipped

unfoldable pub press_modifiers : ℕ → Bool → Device → YaError × List Modifier × Device
press_modifiers mods_mask user_alt =
    press_from
      ((shift, has_bit mods_mask 0)
        ∷ (alt_gr, has_bit mods_mask 1)
        ∷ (ctrl, has_bit mods_mask 2)
        ∷ (meta, has_bit mods_mask 3)
        ∷ (alt, user_alt)
        ∷ [])
      []
