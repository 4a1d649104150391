-- ===== src/Throttle.antt =====
-- Request throttling: `ApiThrottle` (backend/signage/models.py), `client_ip`, `throttle_wait` and
-- `enforce_api_throttle` (backend/signage/services.py). Times are microseconds.
pub mod Window
use digital_signage_project.Base.{
  ℕ, ◌+◌, ◌-◌, ◌*◌, ◌/◌, max, Bool, true, false, Option, none, some, List, [], ◌∷◌, ◌++◌, ltb, leb,
  ◌==◌, if◌then◌else◌, is_some, get, put, Result, ok, err, Error,
}

pub record ApiThrottle : Type 0 where
  pub key_hash : ℕ
  pub attempts : ℕ
  pub window_started_at : ℕ
  pub blocked_until : Option ℕ

abbrev pub second : ℕ
second = 1000000

-- The property `is_blocked`, at the time `now` that it reads.
abbrev pub is_blocked : ℕ → ApiThrottle → Bool
is_blocked now t = elim t.blocked_until [ none ↦ false | some until ↦ ltb now until ]

abbrev pub seconds_left : ℕ → ApiThrottle → ℕ
seconds_left now t = elim t.blocked_until [ none ↦ 0 | some until ↦ (until - now) / second ]

-- The counter of a window that has ended starts anew.
unfoldable pub renew : ℕ → ℕ → ApiThrottle → ApiThrottle
renew window_seconds now t =
    if leb (t.window_started_at + window_seconds * second) now
    then record t { attempts = 0; window_started_at = now; blocked_until = none }
    else t

unfoldable pub count_attempt : ℕ → ℕ → ℕ → ApiThrottle → ApiThrottle
count_attempt limit window_seconds now t =
    let n = t.attempts + 1 in
    if ltb limit n
    then record t { attempts = n; blocked_until = some (now + window_seconds * second) }
    else record t { attempts = n }

-- `throttle_wait` on the request's row: the seconds to wait, and the row. The time is read twice,
-- first as `now` and then, by `is_blocked`, as `later`.
unfoldable pub wait_row : ℕ → ℕ → ℕ → ℕ → ApiThrottle → ℕ × ApiThrottle
unfolding renew count_attempt
wait_row limit window_seconds now later t =
    if is_blocked later t
    then (max 1 (seconds_left now t), t)
    else (let t' = count_attempt limit window_seconds now (renew window_seconds now t) in
        (if is_some t'.blocked_until then window_seconds else 0, t'))

abbrev pub throttle_key : ApiThrottle → ℕ
throttle_key t = t.key_hash

-- `get_or_create(key_hash=key)`; a new row starts its window at `created`.
unfoldable pub get_or_create : ℕ → ℕ → List ApiThrottle → ApiThrottle × List ApiThrottle
get_or_create created key table = elim (get throttle_key key table) [
  | some t ↦ (t, table)
  | none ↦
      let t : ApiThrottle = record {
        key_hash = key;
        attempts = 0;
        window_started_at = created;
        blocked_until = none;
      } in
      (t, table ++ t ∷ [])
]

-- The last part of a text after its commas: `text.split(",")[-1]`.
unfoldable pub after_comma : List ℕ → List ℕ → List ℕ
after_comma part [] = part
after_comma part (c ∷ cs) = after_comma (if c == b',' then [] else part ++ c ∷ []) cs

-- `str.strip()`; `is_space` is Python's test of a white space character.
unfoldable pub strip_left : (ℕ → Bool) → List ℕ → List ℕ
strip_left is_space [] = []
strip_left is_space (c ∷ cs) = if is_space c then strip_left is_space cs else c ∷ cs

unfoldable pub strip_right : (ℕ → Bool) → List ℕ → List ℕ
strip_right is_space [] = []
strip_right is_space (c ∷ cs) = elim (strip_right is_space cs) [
  | [] ↦ if is_space c then [] else c ∷ []
  | d ∷ ds ↦ c ∷ d ∷ ds
]

unfoldable pub strip : (ℕ → Bool) → List ℕ → List ℕ
unfolding strip_left strip_right
strip is_space cs = strip_right is_space (strip_left is_space cs)

-- What `client_ip` reads of a request and of the settings.
pub record RequestMeta : Type 0 where
  pub forwarded_for : List ℕ
  pub remote_addr : List ℕ
  pub has_proxy_header : Bool

unfoldable pub client_ip : (ℕ → Bool) → RequestMeta → List ℕ
unfolding after_comma strip
client_ip is_space m =
    if m.has_proxy_header
    then (elim m.forwarded_for [
      | [] ↦ m.remote_addr
      | c ∷ cs ↦ strip is_space (after_comma [] (c ∷ cs))
    ])
    else m.remote_addr

-- `sha256` gives the number that the digest's text stands for, `secret` is `SECRET_KEY`; `clock` has
-- the time at each reading.
module _ (sha256 : List ℕ → ℕ) (is_space : ℕ → Bool) (secret : List ℕ) (clock : ℕ → ℕ) where
  unfoldable pub identity_key : RequestMeta → List ℕ → ℕ
  unfolding client_ip
  identity_key m action = sha256 (action ++ (b'|' ∷ (client_ip is_space m ++ (b'|' ∷ secret))))

  unfoldable pub throttle_wait :
      RequestMeta → List ℕ → ℕ → ℕ → List ApiThrottle → ℕ × List ApiThrottle
  unfolding identity_key get_or_create wait_row
  throttle_wait m action limit window_seconds table =
      let (t, table') = get_or_create (clock 1) (identity_key m action) table in
      let (wait, t') = wait_row limit window_seconds (clock 0) (clock 2) t in
      (wait, put throttle_key t' table')

  -- The count is kept when the request is refused: it is no part of a failed transaction.
  unfoldable pub enforce_api_throttle :
      RequestMeta → List ℕ → ℕ → ℕ → List ApiThrottle → Result (Unit {0}) × List ApiThrottle
  unfolding throttle_wait
  enforce_api_throttle m action limit window_seconds table =
      let (wait, table') = throttle_wait m action limit window_seconds table in
      (if wait == 0 then ok tt else err (Error.throttled wait), table')
