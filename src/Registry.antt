-- ===== src/Registry.antt =====
-- The list of backend servers, src/proxy/server_monitor.cc: `server_list.json` with its two arrays,
-- the operations that rewrite it, and the notices that the workers get through their pipes.
-- A null array and an empty one print and iterate alike, so both are the empty list here.
pub mod Lists
pub mod View
pub mod Laws
pub mod Plain
pub mod Examples
mod Tests
use proxy_for_distribution_s.Base.{
  ℕ, Text, text_eq, ◌==◌, ◌&&◌, ◌||◌, Bool, true, false, if◌then◌else◌, List, [], ◌∷◌, ◌++◌, map,
  Option, none, some, ◌≡◌,
}

-- One element of an array: the members "ip" and "port". It is `struct address` without its token, too.
pub record Server : Type 0 where
  pub ip : Text
  pub port : ℕ

-- The parsed document: the arrays "up" and "down".
pub record Listing : Type 0 where
  pub up : List Server
  pub down : List Server

-- What one `send` puts into a worker's pipe: an `int`, or a `struct address`.
pub data Chunk : Type 0 where
  int : ℕ → Chunk
  addr : Server → Chunk

-- jsoncpp, at the documents that this program writes: `Reader::parse` and `StyledWriter::write`.
pub record Json : Type 0 where
  pub parse : Text → Option Listing
  pub write : Listing → Text

-- jsoncpp reads back what it wrote.
pub record IsFaithful (j : Json) : Type 0 where
  pub parse_write : (l : Listing) → j.parse (j.write l) ≡ some l

-- The file, whether it opens for reading and for writing, and for each worker what was sent to it.
pub record Gateway : Type 0 where
  pub file : Text
  pub can_read : Bool
  pub can_write : Bool
  pub pipes : List (List Chunk)

-- The `int` that the operations return, 0 or -1.
pub data Outcome : Type 0 where
  ok failed : Outcome

abbrev pub no_servers : Listing
no_servers = record { up = []; down = [] }

-- `ele["port"].asInt() == port && ele["ip"].asString() == ip`
abbrev pub same : Server → Server → Bool
same a s = s.port == a.port && text_eq s.ip a.ip

-- The search loops of `LoginServer`.
unfoldable pub has : Server → List Server → Bool
has a [] = false
has a (s ∷ ss) = same a s || has a ss

-- The loops that copy an array without the entries for `a`, and note whether there was one.
unfoldable pub strip : Server → List Server → List Server × Bool
strip a [] = ([], false)
strip a (s ∷ ss) =
    let (rest, hit) = strip a ss in if same a s then (rest, true) else (s ∷ rest, hit)

-- `none` is the return of -1. A text that does not parse leaves the caller's listing as it was.
unfoldable pub load_server_list : Json → Gateway → Listing → Option Listing
load_server_list j g old =
    if g.can_read then some (elim (j.parse g.file) [ none ↦ old | some l ↦ l ]) else none

unfoldable pub update_server_list : Json → Gateway → Listing → Option Gateway
update_server_list j g l = if g.can_write then some (record g { file = j.write l }) else none

-- `sizeof(address)`: an int, 20 and 10 bytes, padded.
abbrev pub address_size : ℕ
address_size = 36

abbrev pub notice : ℕ → Server → List Chunk
notice code a = int code ∷ int address_size ∷ addr a ∷ []

-- The loop over the `m_process_num` workers, three sends to each.
unfoldable pub broadcast : ℕ → Server → Gateway → Gateway
broadcast code a g = record g { pipes = map (λ p. p ++ notice code a) g.pipes }

-- Rewrite the file, then tell the workers; a file that does not open changes nothing.
abbrev pub commit : Json → Gateway → Listing → (Gateway → Gateway) → Gateway × Outcome
commit j g l tell = elim (update_server_list j g l) [ none ↦ (g, failed) | some g' ↦ (tell g', ok) ]

unfoldable pub set_server_down : Json → Server → Gateway → Gateway × Outcome
unfolding load_server_list update_server_list strip broadcast
set_server_down j a g = elim (load_server_list j g no_servers) [
  | none ↦ (g, failed)
  | some l ↦
      let (server_up_new, set_flag) = strip a l.up in
      if set_flag
      then commit j g (record { up = server_up_new; down = l.down ++ a ∷ [] }) (broadcast 3 a)
      else (g, failed)
]

unfoldable pub set_server_up : Json → Server → Gateway → Gateway × Outcome
unfolding load_server_list update_server_list strip broadcast
set_server_up j a g = elim (load_server_list j g no_servers) [
  | none ↦ (g, failed)
  | some l ↦
      let (server_down_new, set_flag) = strip a l.down in
      if set_flag
      then commit j g (record { up = l.up ++ a ∷ []; down = server_down_new }) (broadcast 2 a)
      else (g, failed)
]

unfoldable pub login_server : Json → Server → Gateway → Gateway × Outcome
unfolding load_server_list update_server_list has
login_server j a g = elim (load_server_list j g no_servers) [
  | none ↦ (g, failed)
  | some l ↦
      if has a l.up || has a l.down
      then (g, failed)
      else commit j g (record l { up = l.up ++ a ∷ [] }) (λ g'. g')
]

unfoldable pub logout_server : Json → Server → Gateway → Gateway × Outcome
unfolding load_server_list update_server_list strip
logout_server j a g = elim (load_server_list j g no_servers) [
  | none ↦ (g, failed)
  | some l ↦
      let (server_up_new, in_up) = strip a l.up in
      let (server_down_new, in_down) = strip a l.down in
      if in_up || in_down
      then commit j g (record { up = server_up_new; down = server_down_new }) (λ g'. g')
      else (g, failed)
]
