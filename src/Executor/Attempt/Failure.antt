-- ===== src/Executor/Attempt/Failure.antt =====
-- normalizeExecutionFailure of apps/executor/src/runner.ts. Texts are lists of UTF-16 units.
use webperf_selfhosted.Base.{is_upper, to_lower}
use webperf_selfhosted.Base.{length-take}
use webperf_selfhosted.Base.{
  ℕ, ◌≤◌, ◌≡◌, Bool, true, ◌&&◌, ◌||◌, Option, none, some, List, [], ◌∷◌, ◌++◌, map, codes,
  if◌then◌else◌, leb, ◌==◌, every, length, take, arith, length-append,
}
use webperf_selfhosted.Queue.Schema.{execution_retry_delay_max_ms}

-- Its `retryDelayMs` is a natural number of milliseconds, if there is one.
pub record ExecutionFailure : Type 0 where
  pub code : List ℕ
  pub message : List ℕ
  pub retryable : Bool
  pub retry_delay_ms : Option ℕ

-- What was thrown: an ExecutionFailure, or another value with the `code` that diagnostics.ts reads
-- of it (for an API error, of its cause), where that is a text.
pub data HandlerError : Type 0 where
  execution_failure : ExecutionFailure → HandlerError
  other_failure : (code : Option (List ℕ)) → HandlerError

pub record NormalizedFailure : Type 0 where
  pub code : List ℕ
  pub message : List ℕ
  pub retryable : Bool
  pub retry_delay_ms : Option ℕ

abbrev pub is_lower : ℕ → Bool
is_lower c = leb b'a' c && leb c b'z'

abbrev pub is_digit : ℕ → Bool
is_digit c = leb b'0' c && leb c b'9'

-- `/^[A-Za-z0-9_:-]{1,120}$/`
unfoldable pub is_error_code : List ℕ → Bool
is_error_code s =
    leb 1 (length s)
    && leb (length s) 120
    && every (λ c. is_upper c || is_lower c || is_digit c || c == b'_' || c == b':' || c == b'-') s

-- `/^[A-Z0-9_]{1,64}$/`
unfoldable pub is_system_code : List ℕ → Bool
is_system_code s =
    leb 1 (length s) && leb (length s) 64 && every (λ c. is_upper c || is_digit c || c == b'_') s

-- The white space and line ends that `trim` removes.
abbrev pub is_space : ℕ → Bool
is_space c =
    (leb 9 c && leb c 13)
    || c == 32
    || c == 160
    || c == 5760
    || (leb 8192 c && leb c 8202)
    || c == 8232
    || c == 8233
    || c == 8239
    || c == 8287
    || c == 12288
    || c == 65279

unfoldable pub trim_start : List ℕ → List ℕ
trim_start [] = []
trim_start (c ∷ cs) = let rest = trim_start cs in if is_space c then rest else c ∷ cs

-- White space at the end: what is all white space is dropped.
unfoldable pub trim_end : List ℕ → List ℕ
trim_end [] = []
trim_end (c ∷ cs) = let rest = trim_end cs in if every is_space (c ∷ cs) then [] else c ∷ rest

unfoldable pub trim : List ℕ → List ℕ
unfolding trim_start trim_end
trim s = trim_end (trim_start s)

abbrev pub or_text : List ℕ → List ℕ → List ℕ
or_text [] d = d
or_text (c ∷ cs) d = c ∷ cs

unfoldable pub normalize_retry_delay : Option ℕ → Option ℕ
normalize_retry_delay none = none
normalize_retry_delay (some d) = if leb d 86400000 then some d else none

unfoldable pub safe_system_code : Option (List ℕ) → Option (List ℕ)
unfolding is_system_code
safe_system_code none = none
safe_system_code (some s) = if is_system_code s then some s else none

abbrev pub system_failure : Option (List ℕ) → NormalizedFailure
system_failure none = record {
  code = codes "execution_failed";
  message = codes "Execution handler failed";
  retryable = true;
  retry_delay_ms = none;
}
system_failure (some s) = record {
  code = codes "execution_" ++ map to_lower s;
  message = codes "Execution handler failed (" ++ s ++ codes ")";
  retryable = true;
  retry_delay_ms = none;
}

unfoldable pub normalize_execution_failure : HandlerError → NormalizedFailure
unfolding is_error_code trim normalize_retry_delay safe_system_code
normalize_execution_failure (execution_failure f) = record {
  code = if is_error_code f.code then f.code else codes "execution_failed";
  message = or_text (take 1000 (trim f.message)) (codes "Execution handler failed");
  retryable = f.retryable;
  retry_delay_ms = normalize_retry_delay f.retry_delay_ms;
}
normalize_execution_failure (other_failure code) = system_failure (safe_system_code code)

length-map : (f : ℕ → ℕ) (xs : List ℕ) → length (map f xs) ≡ length xs
length-map f [] = omega arith
length-map f (x ∷ xs) = omega (arith, length-map f xs)

-- The retry delay is one that the queue accepts.
abbrev pub IsAcceptedDelay : Option ℕ → Type 0
IsAcceptedDelay none = Unit
IsAcceptedDelay (some d) = d ≤ execution_retry_delay_max_ms

code_bounds :
    (s : List ℕ)
    → (1 ≤ length (if is_error_code s then s else codes "execution_failed"))
      × (length (if is_error_code s then s else codes "execution_failed") ≤ 120)
unfolding is_error_code
code_bounds s = ground arith

message_bounds :
    (s : List ℕ)
    → (1 ≤ length (or_text (take 1000 s) (codes "Execution handler failed")))
      × (length (or_text (take 1000 s) (codes "Execution handler failed")) ≤ 1000)
message_bounds s = at (take 1000 s) (omega (arith, length-take 1000 s))
  where
    at :
        (cut : List ℕ)
        → length cut ≤ 1000
        → (1 ≤ length (or_text cut (codes "Execution handler failed")))
          × (length (or_text cut (codes "Execution handler failed")) ≤ 1000)
    at [] h = (omega arith, omega arith)
    at (c ∷ cs) h = (omega arith, h)

delay_bounds : (d : Option ℕ) → IsAcceptedDelay (normalize_retry_delay d)
unfolding normalize_retry_delay
delay_bounds none = tt
delay_bounds (some d) = ground arith

-- The bounds of the property below, of one failure.
abbrev pub IsBounded : NormalizedFailure → Type 0
IsBounded n =
    (1 ≤ length n.code)
    × (length n.code ≤ 120)
    × (1 ≤ length n.message)
    × (length n.message ≤ 1000)
    × IsAcceptedDelay n.retry_delay_ms

system_bounds : (s : List ℕ) → IsBounded (system_failure (safe_system_code (some s)))
unfolding safe_system_code is_system_code
system_bounds s = ground (
  arith,
  length-map to_lower s,
  length-append (codes "execution_") (map to_lower s),
  length-append s (codes ")"),
  length-append (codes "Execution handler failed (") (s ++ codes ")"),
)

-- Whatever a handler throws is normalized to a failure that the queue's schema accepts: a code of 1 to
-- 120 units, a message of 1 to 1000 and a delay of a day at most, if any.
pub normalize_execution_failure_bounds :
    (e : HandlerError) → IsBounded (normalize_execution_failure e)
unfolding normalize_execution_failure
normalize_execution_failure_bounds (execution_failure f) =
    let code = code_bounds f.code in
    let message = message_bounds (trim f.message) in
    (code.0, code.1, message.0, message.1, delay_bounds f.retry_delay_ms)
normalize_execution_failure_bounds (other_failure none) =
    (omega arith, omega arith, omega arith, omega arith, tt)
normalize_execution_failure_bounds (other_failure (some s)) = system_bounds s
