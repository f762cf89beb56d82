-- ===== src/EventProxy/Texts.antt =====
-- What rybalko/31/server.c reads out of requests and of the heads of responses. A text is the list of its
-- characters before the zero; `none` is a use of a null pointer or a read outside an array.
use posix_threads.Common.{
  ℕ, ◌-◌, Bool, true, false, ◌&&◌, ◌||◌, Option, none, some, or_else, List, [], ◌∷◌, ltb, ◌==◌,
  if◌then◌else◌, length, take, drop, ◌>>=◌, ℤ, pos, minus_one,
}

-- The characters up to the first zero.
unfoldable pub c_string : List ℕ → List ℕ
c_string [] = []
c_string (c ∷ cs) = let rest = c_string cs in if c == 0 then [] else c ∷ rest

unfoldable pub starts_with : (prefix : List ℕ) → List ℕ → Bool
starts_with [] str = true
starts_with (p ∷ ps) [] = false
starts_with (p ∷ ps) (c ∷ cs) = (p == c) && starts_with ps cs

-- `strstr`: the text from the first place on where `part` stands.
unfoldable pub find_text : (part : List ℕ) → List ℕ → Option (List ℕ)
find_text part [] = if starts_with part [] then some [] else none
find_text part (c ∷ cs) =
    let rest = find_text part cs in if starts_with part (c ∷ cs) then some (c ∷ cs) else rest

-- What stands before `end`, an end of `str`.
abbrev pub before_end : (str end : List ℕ) → List ℕ
before_end str end = take (length str - length end) str

-- `GET_PREFIX`, `HTTP_DELIM`, " HTTP", "Content-Length: ", "\r\n", "\n" and " ".
abbrev pub get_prefix : List ℕ
get_prefix = 71 ∷ 69 ∷ 84 ∷ 32 ∷ []

abbrev pub http_delim : List ℕ
http_delim = 58 ∷ 47 ∷ 47 ∷ []

abbrev pub url_end : List ℕ
url_end = 32 ∷ 72 ∷ 84 ∷ 84 ∷ 80 ∷ []

abbrev pub content_length : List ℕ
content_length =
    67 ∷ 111 ∷ 110 ∷ 116 ∷ 101 ∷ 110 ∷ 116 ∷ 45 ∷ 76 ∷ 101 ∷ 110 ∷ 103 ∷ 116 ∷ 104 ∷ 58 ∷ 32 ∷ []

abbrev pub crlf : List ℕ
crlf = 13 ∷ 10 ∷ []

abbrev pub newline : List ℕ
newline = 10 ∷ []

abbrev pub space : List ℕ
space = 32 ∷ []

unfoldable pub without_http : List ℕ → List ℕ
unfolding find_text
without_http url = elim (find_text http_delim url) [ none ↦ url | some end ↦ drop 3 end ]

-- `ExtractUrl`: `some none` is the answer 1, and `some (some url)` the answer 0 with the url. Without the
-- end of the url a null pointer is subtracted from.
unfoldable pub extract_url : (full_url : List ℕ) → Option (Option (List ℕ))
unfolding starts_with without_http
extract_url full_url =
    if starts_with get_prefix full_url
    then (let url = without_http (drop 4 full_url) in
        find_text url_end url >>= λ end. some (some (before_end url end)))
    else some none

-- `strpbrk` for ':' and '/'.
unfoldable pub find_delimiter : List ℕ → Option (List ℕ)
find_delimiter [] = none
find_delimiter (c ∷ cs) =
    let rest = find_delimiter cs in if (c == 58) || (c == 47) then some (c ∷ cs) else rest

-- What `ParseFullURL` writes to its results.
pub record Target : Type 0 where
  pub host : List ℕ
  pub path : List ℕ
  pub port : ℤ

-- The part from the delimiter on. `sscanf` gives the port and the path that it reads from a text, if it
-- does; `memory` is what was in the array of the path.
split_rest :
    (sscanf : List ℕ → Option ℤ × Option (List ℕ)) (memory : List ℕ)
    → (host : List ℕ) → (rest : List ℕ) → Target
split_rest sscanf memory host rest =
    if starts_with (47 ∷ []) rest
    then record { host = host; path = rest; port = pos 80 }
    else record {
      host = host;
      path = or_else ((sscanf rest).1) memory;
      port = or_else ((sscanf rest).0) (pos 80);
    }

-- `ParseFullURL`
unfoldable pub parse_full_url :
    (sscanf : List ℕ → Option ℤ × Option (List ℕ)) (memory : List ℕ) → (full_url : List ℕ) → Target
unfolding without_http find_delimiter split_rest
parse_full_url sscanf memory full_url =
    let url = without_http full_url in
    elim (find_delimiter url) [
      | none ↦ record { host = url; path = 47 ∷ []; port = pos 80 }
      | some rest ↦ split_rest sscanf memory (before_end url rest) rest
    ]

-- `ParseInt`; `strtol` gives the number and the text behind it.
unfoldable pub parse_int : (strtol : List ℕ → ℤ × List ℕ) → List ℕ → ℤ
parse_int strtol str = elim ((strtol str).1) [ [] ↦ (strtol str).0 | c ∷ cs ↦ minus_one ]

-- `GetResponseLenght`; a value of 1024 characters is too long for `tmp`.
unfoldable pub get_response_lenght : (strtol : List ℕ → ℤ × List ℕ) → (header : List ℕ) → Option ℤ
unfolding find_text parse_int
get_response_lenght strtol header = find_text content_length header >>= λ start.
    find_text crlf start >>= λ end.
    let value = drop 16 (before_end start end) in
    if ltb (length value) 1024 then some (parse_int strtol value) else none

-- `GetResponseStatus`: the first line is copied without its end, and a space is looked for in it twice.
unfoldable pub get_response_status : (strtol : List ℕ → ℤ × List ℕ) → (header : List ℕ) → Option ℤ
unfolding find_text parse_int
get_response_status strtol header = find_text newline header >>= λ end.
    find_text space (before_end header end) >>= λ first.
    find_text space (drop 1 first) >>= λ second.
    some (parse_int strtol (before_end (drop 1 first) second))
