-- ===== src/Xkb/Lifetime.antt =====
-- What g_xkb holds over calls of xkbmap_init_auto and xkbmap_free (server/src/input/backend/xkb_mapper.c).
use mouse_hero.Base.{
  ◌≡◌, ◌⊎◌, inl, inr, refl, ap, Bool, true, false, Option, none, some, List, [], ◌∷◌, if◌then◌else◌,
  Bool-cases,
}
use mouse_hero.Base.Int.{ℤ, pos, negsuc}
use mouse_hero.Xkb.{
  Keymap, build_cache, Desktop, Source, detect, with_detected, start, with_keymap, Xkb,
  xkbmap_init_auto, xkbmap_free,
}

-- Nothing is held.
pub record IsEmpty (g : Xkb) : Type 0 where
  pub initialized : g.initialized ≡ false
  pub ctx : g.ctx ≡ false
  pub keymap : g.keymap ≡ none
  pub state : g.state ≡ false
  pub cache : g.cache ≡ none

-- Everything is held, and the cache is that of the keymap, or missing.
pub record IsFull (g : Xkb) : Type 0 where
  pub initialized : g.initialized ≡ true
  pub ctx : g.ctx ≡ true
  pub state : g.state ≡ true
  pub keymap : Keymap
  pub keymap_held : g.keymap ≡ some keymap
  pub cache : (g.cache ≡ none) ⊎ (g.cache ≡ some (build_cache keymap))

abbrev pub IsWhole : Xkb → Type 0
IsWhole g = IsEmpty g ⊎ IsFull g

pub data Call : Type 0 where
  starts : Desktop → Call
  frees : Call

abbrev pub step : Call → Xkb → Xkb
step (starts d) g = (xkbmap_init_auto d g).1
step frees g = xkbmap_free g

abbrev pub run : List Call → Xkb → Xkb
run [] g = g
run (x ∷ xs) g = run xs (step x g)

abbrev pub Returns : ℤ × Xkb → Type 0
Returns (status, g) = ((status ≡ pos 0) × IsFull g) ⊎ ((status ≡ negsuc 0) × IsEmpty g)

with_keymap-Returns :
    (d : Desktop) (source : Source) (k : Keymap) (g : Xkb)
    → IsEmpty g
    → Returns (with_keymap d source k g)
with_keymap-Returns d source k g e = elim (Bool-cases d.state_new) [
  | inr none_there ↦ rw none_there (
      inr (
        refl,
        record {
          initialized = e.initialized;
          ctx = refl;
          keymap = refl;
          state = refl;
          cache = e.cache;
        },
      ))
  | inl there ↦ elim (Bool-cases d.calloc) [
    | inl memory ↦
        rw (there, memory)
          (inl (
            refl,
            record {
              initialized = refl;
              ctx = refl;
              state = refl;
              keymap = k;
              keymap_held = refl;
              cache = inr refl;
            },
          ))
    | inr no_memory ↦
        rw (there, no_memory)
          (inl (
            refl,
            record {
              initialized = refl;
              ctx = refl;
              state = refl;
              keymap = k;
              keymap_held = refl;
              cache = inl refl;
            },
          ))
  ]
]

with_detected-Returns :
    (d : Desktop) (o : Option (Source × Keymap)) (g : Xkb)
    → IsEmpty g
    → Returns (with_detected d o g)
with_detected-Returns d (some (source, k)) g e = with_keymap-Returns d source k g e
with_detected-Returns d none g e = inr (
  refl,
  record {
    initialized = e.initialized;
    ctx = refl;
    keymap = refl;
    state = e.state;
    cache = e.cache;
  },
)

Returns-if : (b : Bool) (x y : ℤ × Xkb) → Returns x → Returns y → Returns (if b then x else y)
Returns-if true x y p q = p
Returns-if false x y p q = q

start-Returns : (d : Desktop) (g : Xkb) → IsEmpty g → Returns (start d g)
start-Returns d g e =
    Returns-if d.context_new (with_detected d (detect d) g) (negsuc 0, record g { ctx = false })
      (with_detected-Returns d (detect d) g e)
      (inr (
        refl,
        record {
          initialized = e.initialized;
          ctx = refl;
          keymap = e.keymap;
          state = e.state;
          cache = e.cache;
        },
      ))

pub xkbmap_init_auto-Returns : (d : Desktop) (g : Xkb) → IsWhole g → Returns (xkbmap_init_auto d g)
unfolding xkbmap_init_auto
xkbmap_init_auto-Returns d g (inr f) =
    let r : xkbmap_init_auto d g ≡ (pos 0, g) =
      ap (λ b. if b then (pos 0, g) else start d g) f.initialized in
    rw r (inl (refl, f))
xkbmap_init_auto-Returns d g (inl e) =
    let r : xkbmap_init_auto d g ≡ start d g =
      ap (λ b. if b then (pos 0, g) else start d g) e.initialized in
    rw r (start-Returns d g e)

freed : Xkb → Xkb
freed g = record g { initialized = false; ctx = false; keymap = none; state = false; cache = none }

pub xkbmap_free-IsEmpty : (g : Xkb) → IsWhole g → IsEmpty (xkbmap_free g)
unfolding xkbmap_free freed
xkbmap_free-IsEmpty g (inl e) =
    let r : xkbmap_free g ≡ g = ap (λ b. if b then freed g else g) e.initialized in rw r e
xkbmap_free-IsEmpty g (inr f) =
    let r : xkbmap_free g ≡ freed g = ap (λ b. if b then freed g else g) f.initialized in
    rw r (record { initialized = refl; ctx = refl; keymap = refl; state = refl; cache = refl })

step-IsWhole : (x : Call) (g : Xkb) → IsWhole g → IsWhole (step x g)
step-IsWhole (starts d) g w = elim (xkbmap_init_auto-Returns d g w) [
  | inl (s, f) ↦ inr f
  | inr (s, e) ↦ inl e
]
step-IsWhole frees g w = inl (xkbmap_free-IsEmpty g w)

run-IsWhole : (calls : List Call) (g : Xkb) → IsWhole g → IsWhole (run calls g)
run-IsWhole [] g w = w
run-IsWhole (x ∷ xs) g w = run-IsWhole xs (step x g) (step-IsWhole x g w)

-- From a g_xkb that holds nothing, after any calls of xkbmap_init_auto and xkbmap_free on any
-- desktops, a further xkbmap_init_auto returns 0 and then the context, the keymap, the state and the
-- keymap's cache (or none, where there was no memory for it) are held, or it returns -1 and nothing is
-- held; and a further xkbmap_free leaves nothing held.
pub run-Returns :
    (calls : List Call) (g : Xkb)
    → IsEmpty g
    → ((d : Desktop) → Returns (xkbmap_init_auto d (run calls g)))
      × IsEmpty (xkbmap_free (run calls g))
run-Returns calls g e =
    let w = run-IsWhole calls g (inl e) in
    (λ d. xkbmap_init_auto-Returns d (run calls g) w, xkbmap_free-IsEmpty (run calls g) w)
