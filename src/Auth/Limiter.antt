-- ===== src/Auth/Limiter.antt =====
-- The limiter of logins (internal/server/auth/ratelimit.go). A token bucket of golang.org/x/time/rate
-- is a value of a type of its own, with the functions of the package that the limiter calls.
use lightai_go.Common.{
  ℕ, ◌-◌, ◌*◌, Bool, false, not, none, some, List, [], ◌∷◌, ◌++◌, ltb, filter_by, nat_eq, ◌==◌,
  if◌then◌else◌,
}
use lightai_go.Text.{Text, text, text_eq, to_lower, split, trim_space}
use lightai_go.Text.Maps.{lookup, insert}
use lightai_go.Auth.{Server, second, hour}
use lightai_go.Auth.Requests.{Request, header}

-- `rate.NewLimiter` with the limiter's rate and burst, and `Allow` at a time
pub record Rate : Type 1 where
  pub Bucket : Type 0
  pub new_bucket : Bucket
  pub allow_at : ℕ → Bucket → Bucket × Bool

module _ (rate : Rate) where
  pub record Entry : Type 0 where
    pub limiter : rate.Bucket
    pub last_used : ℕ

  pub record Limiter : Type 0 where
    pub limiters : List (Text × Entry)
    pub last_cleanup : ℕ

  unfoldable pub entry_of : ℕ → Text → Limiter → Entry
  unfolding lookup
  entry_of now key l = elim (lookup key l.limiters) [
    | none ↦ record { limiter = rate.new_bucket; last_used = now }
    | some e ↦ record e { last_used = now }
  ]

  -- The eviction of entries that no one used for an hour, at most once a minute
  unfoldable pub evict : ℕ → Limiter → Limiter
  evict now l =
      if ltb (60 * second) (now - l.last_cleanup)
      then record {
        limiters =
            filter_by (λ (e : Text × Entry). not (ltb hour (now - e.1.last_used))) l.limiters;
        last_cleanup = now;
      }
      else l

  -- `checkKey`, at one time
  unfoldable pub check_key : ℕ → Text → Limiter → Limiter × Bool
  unfolding entry_of evict insert
  check_key now key l =
      let entry = entry_of now key l in
      let taken = rate.allow_at now entry.limiter in
      let kept = evict now (record l { limiters = insert key entry l.limiters }) in
      (
        record kept { limiters = insert key (record entry { limiter = taken.0 }) kept.limiters },
        taken.1,
      )

  -- `clientIP`
  unfoldable pub client_ip : Server → Request → Text
  unfolding header split trim_space
  client_ip srv r =
      if header (text "X-Forwarded-For") r == []
      then if header (text "X-Real-IP") r == []
        then elim (srv.library.split_host_port r.remote_addr) [
          | none ↦ r.remote_addr
          | some host ↦ host
        ]
        else header (text "X-Real-IP") r
      else elim (split b',' (header (text "X-Forwarded-For") r)) [
        | [] ↦ []
        | part ∷ rest ↦ trim_space part
      ]

  -- `Allow`
  unfoldable pub allow : Server → ℕ → Request → Text → Limiter → Limiter × Bool
  unfolding check_key client_ip to_lower
  allow srv now r username l =
      let by_user = check_key now (text "user:" ++ to_lower username) l in
      if by_user.1
      then check_key now (text "ip:" ++ client_ip srv r) by_user.0
      else (by_user.0, false)
