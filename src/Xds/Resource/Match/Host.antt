-- ===== src/Xds/Resource/Match/Host.antt =====
-- What normalizeHost makes of a host with a port.
use yggdrasil_ecosystem.Prelude.{
  All-append, ℕ, ◌≡◌, ◌≢◌, refl, ◌∙◌, false, some, [], ◌∷◌, ◌++◌, arith, ◌==◌, nat_eq, All, All-map,
  count,
}
use yggdrasil_ecosystem.Prelude.Text.{
  Text, text_eq, text_beq_iff, lower, is_space, trim_space, trim, has_byte, count_byte,
}
use yggdrasil_ecosystem.Prelude.TextLaws.{
  trim_none, has_byte_none, has_byte-append, to_lower_none, cut_first, cut_last_lem, cut_last-none,
}
use yggdrasil_ecosystem.Xds.Resource.Match.{split_host_port, normalize_host, is_bracket, strip_port}

-- A byte that normalization leaves alone: no capital letter and no space.
pub record IsSteady (c : ℕ) : Type 0 where
  pub small : lower c ≡ c
  pub solid : is_space c ≡ false

-- Neither a bracket nor a colon.
pub record IsHostByte (c : ℕ) : Type 0 where
  pub steady : IsSteady c
  pub no_colon : c ≢ b':'
  pub no_open : c ≢ b'['
  pub no_close : c ≢ b']'

-- Not a bracket, as in an IPv6 address.
pub record IsAddressByte (c : ℕ) : Type 0 where
  pub steady : IsSteady c
  pub no_open : c ≢ b'['
  pub no_close : c ≢ b']'

normalize_steady :
    (s : Text) → All IsSteady s → s ≢ [] → normalize_host s ≡ trim is_bracket (strip_port s)
unfolding normalize_host trim_space
normalize_steady s h n =
    rw
      (
        to_lower_none s (All-map s (λ c p. p.small) h),
        trim_none is_space s (All-map s (λ c p. p.solid) h),
      )
      (ground (arith, text_beq_iff s []))

split_host :
    (c : ℕ) (host port : Text)
    → All IsHostByte (c ∷ host)
    → All IsHostByte port
    → split_host_port ((c ∷ host) ++ b':' ∷ port) ≡ some (c ∷ host)
unfolding split_host_port has_byte
split_host c host port h p = ground (
  arith,
  cut_last_lem b':' (c ∷ host) port (has_byte_none b':' port (All-map port (λ d q. q.no_colon) p)),
  has_byte_none b':' (c ∷ host) (All-map (c ∷ host) (λ d q. q.no_colon) h),
  has_byte_none b'[' (c ∷ host) (All-map (c ∷ host) (λ d q. q.no_open) h),
  has_byte_none b']' (c ∷ host) (All-map (c ∷ host) (λ d q. q.no_close) h),
  has_byte_none b'[' port (All-map port (λ d q. q.no_open) p),
  has_byte_none b']' port (All-map port (λ d q. q.no_close) p),
  has_byte-append b'[' (c ∷ host) (b':' ∷ port),
  has_byte-append b']' (c ∷ host) (b':' ∷ port),
  h.0.no_open,
)

trim_bracket_none : (s : Text) → All (λ c. (c ≢ b'[') × (c ≢ b']')) s → trim is_bracket s ≡ s
trim_bracket_none s h = trim_none is_bracket s (All-map s (λ c p. ground (arith, p.0, p.1)) h)

count_none : (s : Text) → All IsHostByte s → count (λ d. d == b':') s ≡ 0
count_none [] h = refl
count_none (c ∷ s) h = ground (arith, h.0.no_colon, count_none s h.1)

-- Without a colon there is no port to take off.
no_port : (c : ℕ) (host : Text) → All IsHostByte (c ∷ host) → strip_port (c ∷ host) ≡ c ∷ host
unfolding split_host_port count_byte
no_port c host h = ground (
  arith,
  cut_last-none b':' (c ∷ host)
      (has_byte_none b':' (c ∷ host) (All-map (c ∷ host) (λ d q. q.no_colon) h)),
  count_none (c ∷ host) h,
  h.0.no_open,
)

split_address :
    (address port : Text)
    → All IsAddressByte address
    → All IsHostByte port
    → split_host_port (b'[' ∷ address ++ b']' ∷ b':' ∷ port) ≡ some address
unfolding split_host_port has_byte
split_address address port a p = ground (
  arith,
  cut_first b']' address (b':' ∷ port)
      (has_byte_none b']' address (All-map address (λ d q. q.no_close) a)),
  has_byte_none b':' port (All-map port (λ d q. q.no_colon) p),
  has_byte_none b']' port (All-map port (λ d q. q.no_close) p),
  has_byte_none b'[' port (All-map port (λ d q. q.no_open) p),
  has_byte_none b'[' address (All-map address (λ d q. q.no_open) a),
  has_byte-append b'[' address (b']' ∷ b':' ∷ port),
)

IsSteady-with_port :
    (host port : Text)
    → All IsHostByte host
    → All IsHostByte port
    → All IsSteady (host ++ b':' ∷ port)
unfolding lower is_space
IsSteady-with_port host port h p =
    All-append IsSteady host (b':' ∷ port) (All-map host (λ c q. q.steady) h)
      (record { small = refl; solid = refl }, All-map port (λ c q. q.steady) p)

IsSteady-bracketed :
    (address port : Text)
    → All IsAddressByte address
    → All IsHostByte port
    → All IsSteady (b'[' ∷ address ++ b']' ∷ b':' ∷ port)
unfolding lower is_space
IsSteady-bracketed address port a p = (
  record { small = refl; solid = refl },
  All-append IsSteady address (b']' ∷ b':' ∷ port) (All-map address (λ c q. q.steady) a) (
    record { small = refl; solid = refl },
    (record { small = refl; solid = refl }, All-map port (λ c q. q.steady) p),
  ),
)

-- A host name that is not empty and has no capital letter, space, colon or bracket loses a port of
-- such bytes, and is itself its own normal form.
pub normalize_host-port :
    (host port : Text)
    → host ≢ []
    → All IsHostByte host
    → All IsHostByte port
    → (normalize_host (host ++ b':' ∷ port) ≡ host) × (normalize_host host ≡ host)
normalize_host-port [] port n h p = absurd (n refl)
normalize_host-port (c ∷ host) port n h p = (with_port, alone)
  where
    bare : trim is_bracket (c ∷ host) ≡ c ∷ host
    bare = trim_bracket_none (c ∷ host) (All-map (c ∷ host) (λ d q. (q.no_open, q.no_close)) h)

    with_port : normalize_host ((c ∷ host) ++ b':' ∷ port) ≡ c ∷ host
    with_port =
        normalize_steady ((c ∷ host) ++ b':' ∷ port) (IsSteady-with_port (c ∷ host) port h p)
          (λ e. cc)
        ∙ rw (split_host c host port h p, strip_port) bare

    alone : normalize_host (c ∷ host) ≡ c ∷ host
    alone =
        normalize_steady (c ∷ host) (All-map (c ∷ host) (λ d q. q.steady) h) (λ e. cc)
        ∙ rw (no_port c host h) bare

-- An address in brackets loses its brackets, with its port, where the address has no capital
-- letter, space or bracket and the port no colon either.
pub normalize_host-bracketed :
    (address port : Text)
    → All IsAddressByte address
    → All IsHostByte port
    → normalize_host (b'[' ∷ address ++ b']' ∷ b':' ∷ port) ≡ address
normalize_host-bracketed address port a p =
    normalize_steady (b'[' ∷ address ++ b']' ∷ b':' ∷ port) (IsSteady-bracketed address port a p)
      (λ e. cc)
    ∙ rw (split_address address port a p, strip_port)
        (trim_bracket_none address (All-map address (λ d q. (q.no_open, q.no_close)) a))
