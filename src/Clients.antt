-- ===== src/Clients.antt =====
-- The client manager (server/src/ya_client_manager.h and .c): a table of 251 hash chains of
-- reference-counted clients. A client is a node at an address; the chains hold every node that has
-- been allocated and not yet freed. What `calloc`, `ya_mouse_filter_create` and `time` return is an
-- argument of `create`. A function that frees also returns the frees, in order. The log calls and
-- the DEBUG-only collision statistics are left out.
pub mod Buckets
pub mod Invariant
pub mod Lookup
pub mod Removal
pub mod Lifetime
use mouse_hero.Base.{
  ℕ, suc, ◌+◌, ◌-◌, ◌%◌, ◌^◌, Bool, true, false, ◌&&◌, Option, none, some, List, [], ◌∷◌, ◌++◌, map,
  ltb, ◌==◌, if◌then◌else◌, get_or, set, replicate, concat,
}
use mouse_hero.Base.Int.{ℤ, is_negative, eq_ℤ}

-- YA_CLIENT_HASH_SIZE
abbrev pub hash_size : ℕ
hash_size = 251

abbrev pub u32_mod : ℕ
u32_mod = 2 ^ 32

pub data ClientState : Type 0 where
  active disconnecting disconnected : ClientState

abbrev pub is_active : ClientState → Bool
is_active active = true
is_active _ = false

abbrev pub is_disconnected : ClientState → Bool
is_disconnected disconnected = true
is_disconnected _ = false

-- ya_client_t. `addr` is the node's address; the other pointers are the addresses they hold. The
-- `next` pointer is the position in the chain.
pub record Client : Type 0 where
  pub addr : ℕ
  pub fd : ℤ
  pub uid : ℕ  -- uint32_t
  pub command_index : ℕ  -- int, written from and compared as a uint32_t
  pub ref_count : ℕ  -- uint32_t
  pub state : ClientState
  pub bev : Option ℕ
  pub mouse_filter : Option ℕ
  pub connected_at : ℕ
  pub protocol_version : ℕ  -- uint32_t

pub record Manager : Type 0 where
  pub buckets : List (List Client)
  pub client_count : ℕ  -- uint32_t
  pub next_uid : ℕ  -- uint32_t

-- What a function hands back to the allocator and to libevent.
pub data Free : Type 0 where
  free_bev : ℕ → Free
  destroy_filter : ℕ → Free
  free_client : ℕ → Free

abbrev pub hash_uid : ℕ → ℕ
hash_uid uid = uid % hash_size

abbrev pub bucket : Manager → ℕ → List Client
bucket m h = get_or m.buckets h []

abbrev pub nodes : Manager → List Client
nodes m = concat m.buckets

unfoldable pub init : Manager
init = record { buckets = replicate hash_size []; client_count = 0; next_uid = 1 }

abbrev pub free_opt : (ℕ → Free) → Option ℕ → List Free
free_opt k none = []
free_opt k (some p) = k p ∷ []

-- The frees of one node: its bufferevent, its filter, itself.
unfoldable pub release : Client → List Free
release c =
    free_opt free_bev c.bev ++ free_opt destroy_filter c.mouse_filter ++ free_client c.addr ∷ []

abbrev pub release_all : List Client → List Free
release_all [] = []
release_all (c ∷ cs) = release c ++ release_all cs

unfoldable pub cleanup : Manager → Manager × List Free
cleanup m = (
  record { buckets = map (λ b. []) m.buckets; client_count = 0; next_uid = 1 },
  release_all (nodes m),
)

-- `if (manager->next_uid == 0) manager->next_uid = 1;`
abbrev pub skip_zero : ℕ → ℕ
skip_zero u = if u == 0 then 1 else u

abbrev pub new_client : ℕ → ℕ → Option ℕ → ℕ → ℤ → ℕ → Client
new_client uid addr filter now fd bev = record {
  addr = addr;
  fd = fd;
  uid = uid;
  command_index = 0;
  ref_count = 1;
  state = active;
  bev = some bev;
  mouse_filter = filter;
  connected_at = now;
  protocol_version = 0;
}

abbrev pub insert : Manager → Client → Manager
insert m c =
    let h = hash_uid c.uid in
    record {
      buckets = set m.buckets h (c ∷ bucket m h);
      client_count = (m.client_count + 1) % u32_mod;
      next_uid = skip_zero ((c.uid + 1) % u32_mod);
    }

-- ya_client_create, once its arguments and the allocation are good.
unfoldable pub admit : Manager → ℕ → Option ℕ → ℕ → ℤ → ℕ → Manager × Option Client
admit m addr filter now fd bev =
    let c = new_client (skip_zero m.next_uid) addr filter now fd bev in (insert m c, some c)

-- `alloc` is the result of calloc for the client, `filter` that of ya_mouse_filter_create.
unfoldable pub create : Manager → Option ℕ → Option ℕ → ℕ → ℤ → Option ℕ → Manager × Option Client
unfolding admit
create m alloc filter now fd none = (m, none)
create m none filter now fd (some bev) = (m, none)
create m (some addr) filter now fd (some bev) =
    if is_negative fd then (m, none) else admit m addr filter now fd bev

-- The first node of a chain that passes a test.
unfoldable pub find_in : (Client → Bool) → List Client → Option Client
find_in test [] = none
find_in test (c ∷ cs) = if test c then some c else find_in test cs

abbrev pub has_uid : ℕ → Client → Bool
has_uid uid c = c.uid == uid && is_active c.state

abbrev pub has_fd : ℤ → Client → Bool
has_fd fd c = eq_ℤ c.fd fd && is_active c.state

abbrev pub has_addr : ℕ → Client → Bool
has_addr addr c = c.addr == addr

unfoldable pub find_by_uid : Manager → ℕ → Option Client
find_by_uid m uid = if uid == 0 then none else find_in (has_uid uid) (bucket m (hash_uid uid))

unfoldable pub find_by_fd : Manager → ℤ → Option Client
find_by_fd m fd = if is_negative fd then none else find_in (has_fd fd) (nodes m)

-- The node that a pointer points to; `none` for a pointer to no node.
unfoldable pub deref : Manager → ℕ → Option Client
deref m addr = find_in (has_addr addr) (nodes m)

-- A write through a pointer to a node.
abbrev pub write_in : ℕ → (Client → Client) → List Client → List Client
write_in addr f = map (λ c. if has_addr addr c then f c else c)

unfoldable pub write : Manager → ℕ → (Client → Client) → Manager
write m addr f = record m { buckets = map (write_in addr f) m.buckets }

unfoldable pub ref : Manager → ℕ → Manager
unfolding write
ref m addr = write m addr (λ c. record c { ref_count = (c.ref_count + 1) % u32_mod })

-- The chain without its first node at an address.
unfoldable pub unlink_in : ℕ → List Client → List Client
unlink_in addr [] = []
unlink_in addr (c ∷ cs) = if has_addr addr c then cs else c ∷ unlink_in addr cs

-- `client_count--`
abbrev pub pred_u32 : ℕ → ℕ
pred_u32 n = (n + u32_mod - 1) % u32_mod

-- The walk of ya_client_unref over the node's chain, which frees the node where it finds it.
unfoldable pub unlink : Manager → Client → Manager × List Free
unfolding find_in unlink_in
unlink m c =
    let h = hash_uid c.uid in
    elim (find_in (has_addr c.addr) (bucket m h)) [
      | none ↦ (m, [])
      | some _ ↦ (
        record m {
          buckets = set m.buckets h (unlink_in c.addr (bucket m h));
          client_count = pred_u32 m.client_count;
        },
        release c,
      )
    ]

-- `client->ref_count--`, behind its test
abbrev pub dec_ref : Client → Client
dec_ref c = record c { ref_count = c.ref_count - 1 }

-- ya_client_unref on the node `c`, read through the pointer.
unfoldable pub unref_node : Manager → Client → Manager × List Free
unref_node m c =
    let d = dec_ref c in
    let m' = write m c.addr dec_ref in
    if ltb 0 c.ref_count
    then (if d.ref_count == 0 && is_disconnected d.state then unlink m' d else (m', []))
    else (m, [])

-- `none` is the use of a pointer to no node.
unfoldable pub unref : Manager → ℕ → Option (Manager × List Free)
unref m addr = elim (deref m addr) [ none ↦ none | some c ↦ some (unref_node m c) ]

-- The walk of ya_client_remove over one chain: the chain after it, and the node that it frees.
unfoldable pub remove_in : ℕ → List Client → List Client × Option Client
remove_in uid [] = ([], none)
remove_in uid (c ∷ cs) =
    let (rest, freed) = remove_in uid cs in
    if c.uid == uid
    then (if c.ref_count == 0 then (cs, some c) else (record c { state = disconnected } ∷ cs, none))
    else (c ∷ rest, freed)

abbrev pub after_remove : Manager → ℕ → List Client × Option Client → Manager × List Free
after_remove m h (chain, none) = (record m { buckets = set m.buckets h chain }, [])
after_remove m h (chain, some c) = (
  record m { buckets = set m.buckets h chain; client_count = pred_u32 m.client_count },
  release c,
)

unfoldable pub remove : Manager → ℕ → Manager × List Free
unfolding remove_in
remove m uid =
    let h = hash_uid uid in
    if uid == 0 then (m, []) else after_remove m h (remove_in uid (bucket m h))

abbrev pub count_active : List Client → ℕ
count_active [] = 0
count_active (c ∷ cs) = let rest = count_active cs in if is_active c.state then suc rest else rest

unfoldable pub get_count : Manager → ℕ
get_count m = count_active (nodes m) % u32_mod
