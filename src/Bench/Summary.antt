-- ===== src/Bench/Summary.antt =====
-- cmd/bench/main.go: what main does around runOne. The addresses of the requests, the staggered
-- starts, and the summary of the results, which fmt.Printf writes.
use ytmpt.Common.{
  ℕ, zero, suc, ◌+◌, ◌*◌, ◌≡◌, ◌∙◌, ◌<◌, ap, refl, inl, inr, ◌&&◌, some, List, [], ◌∷◌, ◌++◌, ltb,
  ◌==◌, if◌then◌else◌, get_elem?, Bool-cases, arith,
}
use ytmpt.Common.Text.{Text, lit, is_empty}
use ytmpt.Common.Int.{ℤ, pos, negsuc, pos_part, lt_ℤ}
use ytmpt.Common.Decimal.{decimal}
use ytmpt.Bench.{JobResult, numbered}

-- strings.TrimRight(base, "/")
unfoldable pub trim_right_slash : Text → Text
trim_right_slash [] = []
trim_right_slash (c ∷ s) =
    let rest = trim_right_slash s in if is_empty rest && c == b'/' then [] else c ∷ rest

-- The addresses of the three requests.
abbrev pub prepare_url : Text → Text
prepare_url base = trim_right_slash base ++ lit "/prepare"

abbrev pub convert_url : Text → Text
convert_url base = trim_right_slash base ++ lit "/convert"

abbrev pub status_url : Text → Text → Text
status_url base id = trim_right_slash base ++ (lit "/status/" ++ id)

-- The URLs of the jobs from `i` on.
unfoldable pub urls : Text → ℕ → ℕ → List Text
urls url i zero = []
urls url i (suc n) = numbered url i ∷ urls url (i + 1) n

-- How long the job `i` sleeps before it starts, in nanoseconds.
unfoldable pub start_delay : ℤ → ℕ → ℕ
start_delay per_ip_delay i =
    if lt_ℤ (pos 0) per_ip_delay && ltb 0 i then i * pos_part per_ip_delay else 0

-- %d, and %2d of a natural number
unfoldable pub int_text : ℤ → Text
int_text (pos n) = decimal n
int_text (negsuc n) = b'-' ∷ decimal (n + 1)

unfoldable pub padded : ℕ → Text
padded n = if ltb n 10 then b' ' ∷ decimal n else decimal n

abbrev pub shown_ms : Text → ℤ → Text
shown_ms name ms = name ++ (int_text ms ++ lit "ms")

-- The lines of one job.
unfoldable pub summary_line : ℕ → JobResult → Text
unfolding padded int_text
summary_line i r =
    padded (i + 1)
    ++ (lit ") "
        ++ (r.url
            ++ (lit " id="
                ++ (r.id
                    ++ (lit " status="
                        ++ ((if r.ok then lit "OK" else lit "FAIL")
                            ++ (shown_ms (lit " meta=") r.meta_ms
                                ++ (shown_ms (lit " queue_wait=") r.queue_wait_ms
                                    ++ (shown_ms (lit " download=") r.download_ms
                                        ++ (shown_ms (lit " convert=") r.convert_ms
                                            ++ (shown_ms (lit " total=") r.total_ms
                                                ++ (lit "\n"
                                                    ++ (if is_empty r.err
                                                        then []
                                                        else lit "    error: "
                                                          ++ (r.err ++ lit "\n"))))))))))))))

unfoldable pub summary_from : ℕ → List JobResult → Text
unfolding summary_line
summary_from i [] = []
summary_from i (r ∷ rs) = summary_line i r ++ summary_from (i + 1) rs

-- The per-job summary that main prints.
abbrev pub summary : List JobResult → Text
summary results = lit "\nPer-job summary:\n" ++ summary_from 0 results

-- The URL of each job stands at its index.
pub get_elem?-urls :
    (url : Text) (i n k : ℕ) → k < n → get_elem? (urls url i n) k ≡ some (numbered url (i + k))
unfolding urls
get_elem?-urls url i zero k h = absurd (omega (arith, h))
get_elem?-urls url i (suc n) zero h = ap (λ j. some (numbered url j)) (omega arith)
get_elem?-urls url i (suc n) (suc k) h =
    get_elem?-urls url (i + 1) n k (omega (arith, h))
    ∙ ap (λ j. some (numbered url j)) (omega arith)

-- What TrimRight leaves does not end in a slash, and a second TrimRight changes nothing.
pub trim_right_slash-again : (s : Text) → trim_right_slash (trim_right_slash s) ≡ trim_right_slash s
unfolding trim_right_slash
trim_right_slash-again [] = refl
trim_right_slash-again (c ∷ s) =
    let again = trim_right_slash-again s in
    elim (Bool-cases (is_empty (trim_right_slash s) && c == b'/')) [
      | inl cut ↦ rw cut refl
      | inr kept ↦ rw (kept, trim_right_slash, again, kept) refl
    ]
