-- ===== src/Handlers/Admission.antt =====
-- The command indexes that one client's requests get past the check
-- (server/src/ya_server_handler.c).
use mouse_hero.Base.{
  ℕ, ◌<◌, ◌≡◌, refl, sym, subst, Bool, true, Bool-cases, inl, inr, some, List, [], ◌∷◌, leb, arith,
}
use mouse_hero.Clients.{Client, Manager, deref, write}
use mouse_hero.Clients.Lifetime.{deref-write, deref-addr}
use mouse_hero.Handlers.Dispatch.{
  is_checked, set_index, Check, accepted, check_client, check_command_index,
}
use mouse_hero.Wire.{EventHeader}

abbrev after_check : Check → Manager → Manager
after_check (accepted m') m = m'
after_check _ m = m

abbrev counted : Bool → Check → ℕ → List ℕ → List ℕ
counted true (accepted m) index rest = index ∷ rest
counted _ _ index rest = rest

-- The indexes of the checked requests that are accepted, in the order of the requests.
unfoldable pub admitted : ℕ → List EventHeader → Manager → List ℕ
admitted addr [] m = []
admitted addr (h ∷ hs) m =
    let check = check_command_index h (some addr) m in
    counted (is_checked h) check h.index (admitted addr hs (after_check check m))

-- Each index is above the one in front of it, and the first is above `n`.
abbrev pub Rises : ℕ → List ℕ → Type 0
Rises n [] = Unit
Rises n (i ∷ is) = (n < i) × Rises i is

deref-set_index :
    (m : Manager) (addr index : ℕ) (c : Client)
    → deref m addr ≡ some c
    → deref (write m c.addr (set_index index)) addr ≡ some (set_index index c)
unfolding deref write
deref-set_index m addr index c found =
    subst (λ a. deref (write m a (set_index index)) addr ≡ some (set_index index c))
      (sym (deref-addr m addr c found))
      (deref-write addr (set_index index) m.buckets c (λ x. refl) found)

-- For a client in the table, the indexes that its checked requests are accepted with rise
-- strictly, and lie above the index that it had: no index is accepted twice, whatever requests
-- arrive in whatever order.
pub admitted-Rises :
    (addr : ℕ) (hs : List EventHeader) (m : Manager) (c : Client)
    → deref m addr ≡ some c
    → Rises c.command_index (admitted addr hs m)
unfolding admitted check_command_index check_client
admitted-Rises addr [] m c found = tt
admitted-Rises addr (h ∷ hs) m c found = elim (Bool-cases (is_checked h)) [
  | inr f ↦ rw f (admitted-Rises addr hs m c found)
  | inl t ↦ elim (Bool-cases (leb h.index c.command_index)) [
    | inl old ↦ rw (t, found, old) (admitted-Rises addr hs m c found)
    | inr new ↦
        rw (t, found, new)
          (
            ground (arith, new),
            admitted-Rises addr hs (write m c.addr (set_index h.index)) (set_index h.index c)
                (deref-set_index m addr h.index c found),
          )
  ]
]
