-- ===== src/Backend/Descriptor.antt =====
-- The file descriptor of the uinput device over the life of the backend
-- (server/src/input/backend/linux_uinput.c).
use mouse_hero.Backend.Emits.{Act, perform, perform-specified, attempt, emits, events}
use mouse_hero.Backend.Keys.{enabled_keys}
use mouse_hero.Backend.{
  BackendStatus, ok, error_init, InputEvent, Syscall, opens, closes, dev_setup, dev_create,
  set_keybit, writes, Uinput, syscall, answer, all_of, each, event_types, capabilities, close_fd,
  create_device, set_up_device, input_linux_init, input_linux_shutdown,
}
use mouse_hero.Base.{
  ℕ, ◌+◌, ◌≡◌, ◌≢◌, ◌⊎◌, refl, ap, ◌∙◌, Bool, true, false, Option, none, some, List, [], ◌∷◌, ◌++◌,
  map, if◌then◌else◌, Bool-cases, inl, inr, arith, All,
}

abbrev pub opened_by : Syscall × Bool → ℕ
opened_by (opens, true) = 1
opened_by (_, _) = 0

abbrev pub closed_by : Syscall × Bool → ℕ
closed_by (closes, _) = 1
closed_by (_, _) = 0

abbrev pub total : (Syscall × Bool → ℕ) → List (Syscall × Bool) → ℕ
total f [] = 0
total f (c ∷ cs) = f c + total f cs

total-snoc :
    (f : Syscall × Bool → ℕ) (cs : List (Syscall × Bool)) (c : Syscall × Bool)
    → total f (cs ++ c ∷ []) ≡ total f cs + f c
total-snoc f [] c = omega arith
total-snoc f (x ∷ xs) c = omega (arith, total-snoc f xs c)

abbrev pub held : Bool → ℕ
held is_open = if is_open then 1 else 0

-- Every descriptor that was opened is closed, but for the one that `uinput_fd` holds.
abbrev pub IsBalanced : Uinput → Type 0
IsBalanced u = total opened_by u.log ≡ total closed_by u.log + held u.is_open

-- `u'` has opened and closed the same descriptors as `u`.
record Keeps (u u' : Uinput) : Type 0 where
  opened : total opened_by u'.log ≡ total opened_by u.log
  closed : total closed_by u'.log ≡ total closed_by u.log
  same : u'.is_open ≡ u.is_open

abbrev IsQuiet : Syscall → Type 0
IsQuiet c = (answer : Bool) → (opened_by (c, answer) ≡ 0) × (closed_by (c, answer) ≡ 0)

Keeps-trans : {u v w : Uinput} → Keeps u v → Keeps v w → Keeps u w
Keeps-trans a b = record {
  opened = b.opened ∙ a.opened;
  closed = b.closed ∙ a.closed;
  same = b.same ∙ a.same;
}

Keeps-refl : (u : Uinput) → Keeps u u
Keeps-refl u = record { opened = refl; closed = refl; same = refl }

Keeps-syscall : (c : Syscall) (u : Uinput) → IsQuiet c → Keeps u (syscall c u).1
unfolding syscall
Keeps-syscall c u q =
    let (o, k) = q (answer u.answers) in
    record {
      opened = omega (arith, total-snoc opened_by u.log (c, answer u.answers));
      closed = omega (arith, total-snoc closed_by u.log (c, answer u.answers));
      same = refl;
    }

Keeps-all_of : (cs : List Syscall) (u : Uinput) → All IsQuiet cs → Keeps u (all_of cs u).1
Keeps-all_of [] u q = Keeps-refl u
Keeps-all_of (c ∷ cs) u q = elim (Bool-cases (syscall c u).0) [
  | inl fine ↦ rw fine (Keeps-trans (Keeps-syscall c u q.0) (Keeps-all_of cs (syscall c u).1 q.1))
  | inr failed ↦ rw failed (Keeps-syscall c u q.0)
]

Keeps-each : (cs : List Syscall) (u : Uinput) → All IsQuiet cs → Keeps u (each cs u)
Keeps-each [] u q = Keeps-refl u
Keeps-each (c ∷ cs) u q = Keeps-trans (Keeps-syscall c u q.0) (Keeps-each cs (syscall c u).1 q.1)

Keeps-emits : (es : List InputEvent) (u : Uinput) → Keeps u (emits es u).1
Keeps-emits [] u = Keeps-refl u
Keeps-emits (e ∷ es) u = elim (Bool-cases (syscall (writes e) u).0) [
  | inl fine ↦ rw fine (
      Keeps-trans (Keeps-syscall (writes e) u (λ a. (refl, refl)))
        (Keeps-emits es (syscall (writes e) u).1))
  | inr failed ↦ rw failed (Keeps-syscall (writes e) u (λ a. (refl, refl)))
]

Keeps-attempt : (o : Option (List InputEvent)) (u : Uinput) → Keeps u (attempt o u).1
Keeps-attempt none u = Keeps-refl u
Keeps-attempt (some es) u = Keeps-emits es u

Keeps-if :
    (b : Bool) (u : Uinput) (x y : BackendStatus × Uinput)
    → Keeps u x.1
    → Keeps u y.1
    → Keeps u (if b then x else y).1
Keeps-if true u x y k l = k
Keeps-if false u x y k l = l

Keeps-perform : (a : Act) (u : Uinput) → Keeps u (perform a u).1
Keeps-perform a u = rw (perform-specified a u) (
    Keeps-if u.is_open u (attempt (events a) u) (error_init, u) (Keeps-attempt (events a) u)
      (Keeps-refl u))

Keeps-IsBalanced : {u v : Uinput} → Keeps u v → IsBalanced u → IsBalanced v
Keeps-IsBalanced {u} {v} k b = k.opened ∙ b ∙ omega (arith, k.closed, ap held k.same)

-- A balanced state whose descriptor is open.
record IsReady (u : Uinput) : Type 0 where
  balanced : IsBalanced u
  ready : u.is_open ≡ true

Keeps-IsReady : {u v : Uinput} → Keeps u v → IsReady u → IsReady v
Keeps-IsReady k r = record { balanced = Keeps-IsBalanced k r.balanced; ready = k.same ∙ r.ready }

-- Balanced, and open exactly if the status is OK.
abbrev pub IsSettled : BackendStatus × Uinput → Type 0
IsSettled (status, u) =
    IsBalanced u × (((status ≡ ok) × (u.is_open ≡ true)) ⊎ ((status ≢ ok) × (u.is_open ≡ false)))

close_fd-is_open : (u : Uinput) → (close_fd u).is_open ≡ false
unfolding close_fd
close_fd-is_open u = refl

close_fd-IsSettled : (u : Uinput) → IsReady u → IsSettled (error_init, close_fd u)
unfolding close_fd syscall
close_fd-IsSettled u r =
    let b : total opened_by u.log ≡ total closed_by u.log + 1 =
      r.balanced ∙ ap (λ x. total closed_by u.log + held x) r.ready in
    (
      omega (
        arith,
        total-snoc opened_by u.log (closes, answer u.answers),
        total-snoc closed_by u.log (closes, answer u.answers),
      ),
      inr (λ e. cc, refl),
    )

create_device-IsSettled : (u : Uinput) → IsReady u → IsSettled (create_device u)
unfolding create_device
create_device-IsSettled u r =
    let r1 = Keeps-IsReady (Keeps-syscall dev_setup u (λ a. (refl, refl))) r in
    let r2 =
      Keeps-IsReady (Keeps-syscall dev_create (syscall dev_setup u).1 (λ a. (refl, refl))) r1 in
    elim (Bool-cases (syscall dev_setup u).0) [
      | inr failed ↦ rw failed (close_fd-IsSettled (syscall dev_setup u).1 r1)
      | inl fine ↦ elim (Bool-cases (syscall dev_create (syscall dev_setup u).1).0) [
        | inl made ↦ rw (fine, made) (r2.balanced, inl (refl, r2.ready))
        | inr failed ↦ rw (fine, failed) (close_fd-IsSettled _ r2)
      ]
    ]

set_keybit-IsQuiet : (keys : List ℕ) → All IsQuiet (map set_keybit keys)
set_keybit-IsQuiet [] = tt
set_keybit-IsQuiet (k ∷ ks) = (λ a. (refl, refl), set_keybit-IsQuiet ks)

capabilities-IsQuiet : All IsQuiet capabilities
capabilities-IsQuiet = (
  λ a. (refl, refl),
  (
    λ a. (refl, refl),
    (
      λ a. (refl, refl),
      (
        λ a. (refl, refl),
        (
          λ a. (refl, refl),
          (
            λ a. (refl, refl),
            (
              λ a. (refl, refl),
              (λ a. (refl, refl), (λ a. (refl, refl), set_keybit-IsQuiet enabled_keys)),
            ),
          ),
        ),
      ),
    ),
  ),
)

set_up_device-IsSettled : (u : Uinput) → IsReady u → IsSettled (set_up_device u)
unfolding set_up_device
set_up_device-IsSettled u r =
    let k =
      Keeps-all_of event_types u
        (λ a. (refl, refl), (λ a. (refl, refl), (λ a. (refl, refl), tt))) in
    elim (Bool-cases (all_of event_types u).0) [
      | inr failed ↦ rw failed (close_fd-IsSettled _ (Keeps-IsReady k r))
      | inl fine ↦ rw fine (
          create_device-IsSettled _ (
            Keeps-IsReady (Keeps-each capabilities (all_of event_types u).1 capabilities-IsQuiet)
              (Keeps-IsReady k r)))
    ]

pub input_linux_init-IsSettled :
    (u : Uinput) → u.is_open ≡ false → IsBalanced u → IsSettled (input_linux_init u)
unfolding input_linux_init syscall
input_linux_init-IsSettled u closed b =
    let flat : total opened_by u.log ≡ total closed_by u.log =
      b ∙ ap (λ x. total closed_by u.log + held x) closed ∙ omega arith in
    elim (Bool-cases (answer u.answers)) [
      | inl opened ↦ rw opened (
          set_up_device-IsSettled _ (record {
            balanced = omega (
              arith,
              total-snoc opened_by u.log (opens, true),
              total-snoc closed_by u.log (opens, true),
            );
            ready = refl;
          }))
      | inr failed ↦ rw failed (
        omega (
          arith,
          total-snoc opened_by u.log (opens, false),
          total-snoc closed_by u.log (opens, false),
        ),
        inr (λ e. cc, refl),
      )
    ]

pub input_linux_shutdown-IsBalanced :
    (u : Uinput)
    → IsBalanced u
    → IsBalanced (input_linux_shutdown u) × ((input_linux_shutdown u).is_open ≡ false)
unfolding input_linux_shutdown
input_linux_shutdown-IsBalanced u b = elim (Bool-cases u.is_open) [
  | inl opened ↦
      let e : input_linux_shutdown u ≡ close_fd u = ap (λ x. if x then close_fd u else u) opened in
      rw e ((close_fd-IsSettled u (record { balanced = b; ready = opened })).0, close_fd-is_open u)
  | inr closed ↦
      let e : input_linux_shutdown u ≡ u = ap (λ x. if x then close_fd u else u) closed in
      rw e (b, closed)
]

-- The life of the backend. It is set up only when it is not open, as start_server does.
pub data Step : Uinput → Uinput → Type 0 where
  inits : (u : Uinput) → u.is_open ≡ false → Step u (input_linux_init u).1
  shuts : (u : Uinput) → Step u (input_linux_shutdown u)
  acts : (u : Uinput) (a : Act) → Step u (perform a u).1

pub data Reach (s : Uinput) : Uinput → Type 0 where
  here : Reach s s
  next : {t u : Uinput} → Reach s t → Step t u → Reach s u

Step-IsBalanced : {u v : Uinput} → Step u v → IsBalanced u → IsBalanced v
Step-IsBalanced (inits u closed) b = (input_linux_init-IsSettled u closed b).0
Step-IsBalanced (shuts u) b = (input_linux_shutdown-IsBalanced u b).0
Step-IsBalanced (acts u a) b = Keeps-IsBalanced (Keeps-perform a u) b

run-IsBalanced : (s u : Uinput) → IsBalanced s → Reach s u → IsBalanced u
run-IsBalanced s u b here = b
run-IsBalanced s u b (next {t = t} r st) = Step-IsBalanced st (run-IsBalanced s t b r)

-- No descriptor leaks over the life of the backend: whatever the system calls answer, after any calls
-- of input_linux_init on a backend that is not open, of input_linux_shutdown and of the actions, each
-- descriptor that was opened is closed, but for the one that `uinput_fd` holds. After a further
-- input_linux_shutdown none is held; and after an input_linux_init behind it one is held exactly if it
-- returned OK, and the others are closed.
pub Reach-IsBalanced :
    (s u : Uinput)
    → IsBalanced s
    → Reach s u
    → IsBalanced u
      × ((input_linux_shutdown u).is_open ≡ false)
      × IsSettled (input_linux_init (input_linux_shutdown u))
Reach-IsBalanced s u b r =
    let b' = run-IsBalanced s u b r in
    let (b'', closed) = input_linux_shutdown-IsBalanced u b' in
    (b', closed, input_linux_init-IsSettled (input_linux_shutdown u) closed b'')
