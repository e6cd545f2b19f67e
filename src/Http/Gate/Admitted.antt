-- ===== src/Http/Gate/Admitted.antt =====
-- Which changes reach the handlers.
use winforge.Prelude.{ℕ, ◌≡◌, ◌⊎◌, Bool, true, false, not, ◌||◌, Option, none, some, if◌then◌else◌}
use winforge.Text.{Text, codes, is_empty, equal_fold, CaseTable}
use winforge.Http.Gate.{
  Net, Url, Request, Outcome, answered, served, split_authority, or_default, scheme_of,
  max_request_body, limited,
}

module _ ⦃c : CaseTable⦄ (net : Net) where
  -- the host of an authority is localhost or a loopback address
  abbrev pub IsLoopback : Text → Type 0
  IsLoopback authority =
      (host : Text) × (port : Text) × (split_authority net authority ≡ some (host, port))
      × ((equal_fold host (codes "localhost") ≡ true) ⊎ (net.parse_loopback host ≡ some true))

  -- the origin `u` is the server that the request was sent to: the same host in any case, the same
  -- scheme, and the same port, which may be left out where it is the scheme's own
  abbrev pub IsServer : Request → Url → Type 0
  IsServer r u =
      (host : Text) × (port : Text) × (origin_host : Text) × (origin_port : Text) × (split_authority
          net r.host
        ≡ some (host, port))
      × (split_authority net u.host ≡ some (origin_host, origin_port))
      × (equal_fold host origin_host ≡ true)
      × (u.scheme ≡ scheme_of net r.tls)
      × (or_default net r.tls port ≡ or_default net r.tls origin_port)

  -- the request names no origin, or that of the server
  abbrev pub FromServer : Request → Type 0
  FromServer r =
      (is_empty r.origin ≡ true) ⊎ ((u : Url) × (net.parse_url r.origin ≡ some u) × IsServer r u)

module _ ⦃c : CaseTable⦄ (net : Net) {L : Type 0} (limit : Request → L → Bool × L)
    (session_token : Text) (r : Request) where
  abbrev gate : (loopback mutation same empty known : Bool) → Bool × L → L → Outcome × L
  gate loopback mutation same empty known limited_by l =
      if not loopback
      then (answered 403, l)
      else if not mutation
      then (served none, l)
      else if not same
      then (answered 403, l)
      else if empty || not known
      then (answered 401, l)
      else limited net limit limited_by

  abbrev Open : (loopback mutation same empty known : Bool) → Bool × L → L → Option ℕ → L → Type 0
  Open loopback mutation same empty known limited_by l body_limit l' =
      (loopback ≡ true)
      × (((mutation ≡ false) × (body_limit ≡ none) × (l' ≡ l))
          ⊎ ((mutation ≡ true)
              × (same ≡ true)
              × (known ≡ true)
              × (empty ≡ false)
              × (limited_by ≡ (true, l'))
              × (body_limit ≡ some max_request_body)))
