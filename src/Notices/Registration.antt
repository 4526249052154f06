-- ===== src/Notices/Registration.antt =====
-- The bytes of a registration: `struct address` as src/server_loginout/server_loginout.cc writes it and
-- as `server_socket_read_cb` of include/pool.h reads it.
use mathlib.Core.List.{append_assoc, append-nil}
use proxy_for_distribution_s.Base.{
  ℕ, zero, suc, ◌+◌, ◌-◌, ◌<◌, ltb, Text, true, false, if◌then◌else◌, [], ◌∷◌, ◌++◌, take, drop,
  length, replicate, length-append, take-append, Option, none, some, ◌≡◌, refl, ap, subst, ◌∙◌,
  arith,
}
use proxy_for_distribution_s.Registry.{Server, Json, Gateway, address_size}
use proxy_for_distribution_s.Packets.{int_mod, int_bytes, int_of, to_size, string_of, has_nul}
use proxy_for_distribution_s.Packets.Frames.{int_of-int_bytes}
use proxy_for_distribution_s.Notices.{Reply, server_socket_read}

-- The bytes of `ip` and `token` together.
abbrev pub fields_size : ℕ
fields_size = 30

abbrev zeros : ℕ → Text
zeros n = replicate n 0

-- A text in an array that was zero.
pub field : ℕ → Text → Text
field n t = t ++ zeros (n - length t)

-- The two writes of `main` in server_loginout.cc; `pad` is what the padding holds.
pub registration : (token : Text) → Server → (pad : Text) → Text
unfolding field
registration token a pad =
    int_bytes address_size ++ (int_bytes a.port ++ (field 20 a.ip ++ (field 10 token ++ pad)))

-- What the main process finds: too few bytes for the length, which an assertion checks; an address that
-- is written or read past its end; one with no whole port; or the token, the server, the length, and
-- what is left of the input.
pub data Arrived : Type 0 where
  assertion_fails : Arrived
  past_address : Arrived
  unset_port : Arrived
  address : Text → Server → ℕ → Text → Arrived

-- The strings in the bytes behind the port. The constructor has cleared both arrays, and a text without
-- an end runs on into what follows.
pub read_fields : (port size : ℕ) → Text → Text → Arrived
unfolding string_of
read_fields port size fields rest =
    let mem = fields ++ zeros (fields_size - length fields) in
    let ip = string_of mem in
    let token = string_of (drop 20 mem) in
    if ltb (length ip) fields_size
    then (if ltb (length token) 10
        then address token (record { ip = ip; port = port }) size rest
        else past_address)
    else past_address

pub read_address : ℕ → Text → Text → Arrived
unfolding read_fields
read_address size (p0 ∷ p1 ∷ p2 ∷ p3 ∷ fields) rest =
    if ltb address_size (4 + length fields)
    then past_address
    else read_fields (int_of p0 p1 p2 p3) size fields rest
read_address size _ rest = unset_port

unfoldable pub take_registration : Text → Arrived
unfolding read_address to_size
take_registration (b0 ∷ b1 ∷ b2 ∷ b3 ∷ rest) =
    let size = to_size (int_of b0 b1 b2 b3) in
    read_address (int_of b0 b1 b2 b3) (take size rest) (drop size rest)
take_registration _ = assertion_fails

-- `server_socket_read_cb` from the bytes on; `none` where it does not get to an address.
pub registered_from : Json → Text → Gateway → Option (Gateway × Reply)
unfolding take_registration
registered_from j input g = elim (take_registration input) [
  | assertion_fails ↦ none
  | past_address ↦ none
  | unset_port ↦ none
  | address token a size rest ↦ some (server_socket_read j token size a g)
]

string_of-nul : (t rest : Text) → has_nul t ≡ false → string_of (t ++ 0 ∷ rest) ≡ t
unfolding string_of has_nul
string_of-nul [] rest h = refl
string_of-nul (b ∷ bs) rest h = ground (arith, string_of-nul bs rest)

zeros-suc : (n : ℕ) → zero < n → zeros n ≡ 0 ∷ zeros (n - 1)
zeros-suc zero h = absurd (omega arith)
zeros-suc (suc n) h = ap (λ k. 0 ∷ zeros k) (omega arith)

string_of-field :
    (n : ℕ) (t rest : Text) → length t < n → has_nul t ≡ false → string_of (field n t ++ rest) ≡ t
unfolding field
string_of-field n t rest h k =
    ap string_of (
      append_assoc t (zeros (n - length t)) rest
      ∙ ap (λ zs. t ++ (zs ++ rest)) (zeros-suc (n - length t) (omega arith)))
    ∙ string_of-nul t (zeros (n - length t - 1) ++ rest) k

length-zeros : (n : ℕ) → length (zeros n) ≡ n
length-zeros zero = refl
length-zeros (suc n) = ap suc (length-zeros n)

length-field : (n : ℕ) (t : Text) → length t < n → length (field n t) ≡ n
unfolding field
length-field n t h =
    omega (arith, length-append t (zeros (n - length t)), length-zeros (n - length t))

drop_front : (n : ℕ) (xs ys : Text) → length xs ≡ n → drop n (xs ++ ys) ≡ ys
drop_front zero [] ys h = refl
drop_front zero (x ∷ xs) ys h = absurd (omega arith)
drop_front (suc n) [] ys h = absurd (omega arith)
drop_front (suc n) (x ∷ xs) ys h = drop_front n xs ys (omega arith)

take_front : (n : ℕ) (xs ys : Text) → length xs ≡ n → take n (xs ++ ys) ≡ xs
take_front n xs ys h = subst (λ k. take k (xs ++ ys) ≡ xs) h (take-append xs ys)

take_registration-size :
    (n : ℕ) (rest : Text)
    → n < 256
    → take_registration (n ∷ 0 ∷ 0 ∷ 0 ∷ rest) ≡ read_address n (take n rest) (drop n rest)
unfolding take_registration to_size
take_registration-size n rest h =
    let number : int_of n 0 0 0 ≡ n = omega arith in
    let small : ltb n 2147483648 ≡ true = ground arith in rw (number, small) refl

-- An address that fits: the strings are shorter than their arrays and without a 0.
pub record IsFitting (token : Text) (a : Server) (pad : Text) : Type 0 where
  pub ip_short : length a.ip < 20
  pub ip_plain : has_nul a.ip ≡ false
  pub token_short : length token < 10
  pub token_plain : has_nul token ≡ false
  pub port_small : a.port < int_mod
  pub padding : length pad ≡ 2

module _ (token : Text) (a : Server) (pad : Text) (fits : IsFitting token a pad) where
  abbrev fields : Text
  fields = field 20 a.ip ++ (field 10 token ++ pad)

  length-fields : length fields ≡ 32
  length-fields = omega (
    arith,
    length-append (field 20 a.ip) (field 10 token ++ pad),
    length-append (field 10 token) pad,
    length-field 20 a.ip fits.ip_short,
    length-field 10 token fits.token_short,
    fits.padding,
  )

  read_fields-fields :
      (port size : ℕ) (rest : Text)
      → read_fields port size fields rest
        ≡ address token (record { ip = a.ip; port = port }) size rest
  unfolding read_fields
  read_fields-fields port size rest =
      let whole : fields ++ zeros (fields_size - length fields) ≡ fields =
        ap (λ n. fields ++ zeros (fields_size - n)) length-fields ∙ append-nil fields in
      let ip : string_of fields ≡ a.ip = string_of-field 20 a.ip _ fits.ip_short fits.ip_plain in
      let tok : string_of (drop 20 fields) ≡ token =
        ap string_of (
          drop_front 20 (field 20 a.ip) (field 10 token ++ pad)
            (length-field 20 a.ip fits.ip_short))
        ∙ string_of-field 10 token pad fits.token_short fits.token_plain in
      let ip_ends : ltb (length a.ip) fields_size ≡ true = ground (arith, fits.ip_short) in
      let token_ends : ltb (length token) 10 ≡ true = ground (arith, fits.token_short) in
      rw (whole, ip, tok, ip_ends, token_ends) refl

  read_address-fields :
      (size : ℕ) (rest : Text)
      → read_address size (int_bytes a.port ++ fields) rest ≡ address token a size rest
  unfolding read_address
  read_address-fields size rest =
      let inside : ltb address_size (4 + length fields) ≡ false = ground (arith, length-fields) in
      rw inside (
        read_fields-fields _ size rest
        ∙ ap (λ port. address token (record { ip = a.ip; port = port }) size rest)
            (int_of-int_bytes a.port fits.port_small))

  -- What a server writes to register, its address fitting: the strings are shorter than their arrays
  -- and without a 0. The main process finds the token and the server in it, and leaves what follows.
  pub take_registration-registration :
      (more : Text)
      → take_registration (registration token a pad ++ more) ≡ address token a address_size more
  unfolding registration
  take_registration-registration more =
      let body = int_bytes a.port ++ fields in
      let long : length body ≡ 36 = omega (arith, length-fields) in
      take_registration-size 36 (body ++ more) (omega arith)
      ∙ ap (λ b. read_address 36 b (drop 36 (body ++ more))) (take_front 36 body more long)
      ∙ ap (read_address 36 body) (drop_front 36 body more long)
      ∙ read_address-fields address_size more
