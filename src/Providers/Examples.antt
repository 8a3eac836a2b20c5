-- ===== src/Providers/Examples.antt =====
-- Retries of an operation that times out twice.
use advanced_roleplaying_fra.Base.{ℕ, zero, suc, ◌+◌, ◌≡◌, refl, ◌∷◌, [], Result, ok, err}
use Prim.Native.String
use advanced_roleplaying_fra.Base.{foldl}
use advanced_roleplaying_fra.Base.Search.{split_first, after_prefix, join}
use advanced_roleplaying_fra.Providers.Sse.{push, frame_rounds, frame_data, lines}
use advanced_roleplaying_fra.Providers.Sse.Chunks.{then_push, concat, push-concat}
use advanced_roleplaying_fra.Providers.Request.{ProviderError, is_retryable}
use advanced_roleplaying_fra.Providers.Retry.{
  with_retries, counted, delay_ms, Bounded, with_retries-Bounded,
}

-- The state is the number of failures that are left.
abbrev slow : ℕ → ℕ × Result ℕ ProviderError
slow zero = (0, ok 7)
slow (suc left) = (left, err ProviderError.timeout)

three_calls : (with_retries (counted slow) 5 (0, 2)).state ≡ (3, 0)
unfolding with_retries is_retryable
three_calls = refl

delays_double : (with_retries (counted slow) 5 (0, 2)).delays ≡ 100 ∷ 200 ∷ []
unfolding with_retries delay_ms is_retryable
delays_double = refl

gives_up : (with_retries slow 1 2).result ≡ err ProviderError.timeout
unfolding with_retries is_retryable
gives_up = refl

-- Without overflow checks the product wraps around.
no_delay : delay_ms 62 ≡ 0
unfolding delay_ms
no_delay = refl

with_retries-Bounded_example : Bounded 0 (5 + 1) (5 + 1) (with_retries (counted slow) 5 (0, 2))
with_retries-Bounded_example = with_retries-Bounded slow 5 2

hello_frame : (push "" "event: message\nid: 1\ndata: hello\n\n").0 ≡ "hello" ∷ []
unfolding push frame_rounds split_first after_prefix frame_data lines join
hello_frame = refl

-- A frame of two data lines, with carriage returns, and the start of the next frame.
two_lines : push "da" "ta: a\r\ndata: b\n\ndata" ≡ ("a\nb" ∷ [], "data")
unfolding push frame_rounds split_first after_prefix frame_data lines join
two_lines = refl

push-concat_example :
    foldl then_push ([], String.[]) ("data: a" ∷ "b\n" ∷ "\ndata: c\n\nda" ∷ [])
    ≡ push String.[] (concat ("data: a" ∷ "b\n" ∷ "\ndata: c\n\nda" ∷ []))
push-concat_example = push-concat ("data: a" ∷ "b\n" ∷ "\ndata: c\n\nda" ∷ [])
