-- ===== src/EventProxy/Safe/Readable.antt =====
-- Bytes from which `ReadFromClient` of rybalko/31/server.c reads a request without leaving its arrays.
use posix_threads.Common.{
  ℕ, ◌≡◌, ◌≢◌, drop, tabulate, ◌<◌, ◌≤◌, refl, inl, inr, Bool, true, false, Option, none, some,
  List, [], ◌∷◌, arith, ◌==◌, length, Bool-cases, Option-cases,
}
use posix_threads.EventProxy.{Client}
use posix_threads.EventProxy.Texts.{
  c_string, extract_url, starts_with, get_prefix, find_text, url_end, without_http, before_end,
}
use posix_threads.EventProxy.Requests.{ClientIo, keep_request, over}

pub length-c_string : (cs : List ℕ) → length (c_string cs) ≤ length cs
unfolding c_string
length-c_string [] = omega arith
length-c_string (c ∷ cs) = ground (arith, length-c_string cs)

-- Bytes that `buf` holds with a zero behind them, which have the end of the url if they start with a GET.
pub record IsReadable (bytes : List ℕ) : Type 0 where
  pub fits : length bytes < 1024
  pub ends :
      starts_with get_prefix (c_string bytes) ≡ true
      → find_text url_end (without_http (drop 4 (c_string bytes))) ≢ none

pub extract_url-returns :
    (bytes : List ℕ)
    → IsReadable bytes
    → (answer : Option (List ℕ)) × (extract_url (c_string bytes) ≡ some answer)
unfolding extract_url
extract_url-returns bytes r = elim (Bool-cases (starts_with get_prefix (c_string bytes))) [
  | inr e ↦ (none, rw e refl)
  | inl e ↦ elim (Option-cases (find_text url_end (without_http (drop 4 (c_string bytes))))) [
    | inl f ↦ absurd (r.ends e f)
    | inr (end, f) ↦
        (some (before_end (without_http (drop 4 (c_string bytes))) end), rw e (rw f refl))
  ]
]

-- The request is kept with its client, or there is no memory for it.
pub keep_request-returns :
    (io : ClientIo) (p : ℕ) (bytes : List ℕ) (client : Client)
    → (client.request ≡ none → client.request_size ≡ 0)
    → (kept : Bool) × (c' : Client) × (keep_request io p bytes client ≡ some (kept, c'))
      × (c'.cache_idx ≡ client.cache_idx)
      × (io.request_ok ≡ true → kept ≡ true)
unfolding keep_request
keep_request-returns io p bytes client known = elim (Bool-cases (client.request_size == 0)) [
  | inl e ↦ elim (Bool-cases io.request_ok) [
    | inl f ↦ (
      true,
      record client { request_size = 1024; request = some (over bytes (tabulate io.heap 0 1024)) },
      rw (e, f) refl,
      refl,
      λ h. refl,
    )
    | inr f ↦ (
      false,
      record client { request_size = 1024; request = none },
      rw (e, f) refl,
      refl,
      λ h. absurd (ground (arith, f, h)),
    )
  ]
  | inr e ↦ elim (Option-cases client.request) [
    | inl f ↦ absurd (ground (arith, known f))
    | inr (cs, f) ↦
        (true, record client { request = some (over bytes cs) }, rw e (rw f refl), refl, λ h. refl)
  ]
]
