-- ===== src/Client/Tokens.antt =====
-- `strtok(line, " ")`, called until it gives no token, and `strcspn` with a newline.
use Prim.Native.Char.{Char, code}
use client_server_architectu.Prelude.{
  ◌≤◌, ℕ, zero, suc, ◌≢◌, arith, ap, All, if◌then◌else◌, ◌≡◌, ◌∷◌, false, eqb, [], String, List,
  Bool, refl,
}

abbrev pub is_space : Char → Bool
is_space c = eqb (code c) b' '

-- a token, unless it is empty
abbrev pub token : String → List String → List String
token String.[] ts = ts
token (String.◌∷◌ c s) ts = String.◌∷◌ c s ∷ ts

-- the text up to the first space, and the tokens after it
unfoldable pub split : String → String × List String
split String.[] = (String.[], [])
split (String.◌∷◌ c s) =
    let (word, rest) = split s in
    if is_space c then (String.[], token word rest) else (String.◌∷◌ c word, rest)

unfoldable pub tokens : String → List String
tokens s = token (split s).0 (split s).1

-- `line[strcspn(line, "\n")] = 0`
unfoldable pub first_line : String → String
first_line String.[] = String.[]
first_line (String.◌∷◌ c s) =
    let rest = first_line s in if eqb (code c) b'\n' then String.[] else String.◌∷◌ c rest

abbrev pub append : String → String → String
append String.[] t = t
append (String.◌∷◌ c s) t = String.◌∷◌ c (append s t)

-- words with one space between two
unfoldable pub join : List String → String
join [] = String.[]
join (w ∷ []) = w
join (w ∷ v ∷ ws) = append w (append " " (join (v ∷ ws)))

-- A text that is one token: not empty, and without a space.
abbrev pub IsSpaceless : String → Type 0
IsSpaceless String.[] = Unit
IsSpaceless (String.◌∷◌ c s) = (code c ≢ b' ') × IsSpaceless s

abbrev pub IsWord : String → Type 0
IsWord String.[] = ⊥
IsWord (String.◌∷◌ c s) = IsSpaceless (String.◌∷◌ c s)

not_space : (c : Char) → code c ≢ b' ' → is_space c ≡ false
not_space c h = ground arith

-- Words with their spaces come apart as they were.
split-append :
    (w s : String)
    → IsSpaceless w
    → split (append w (append " " s)) ≡ (w, token (split s).0 (split s).1)
unfolding split
split-append String.[] s h = refl
split-append (String.◌∷◌ c w) s h = rw (not_space c h.0, split-append w s h.1) refl

split-IsSpaceless : (w : String) → IsSpaceless w → split w ≡ (w, [])
unfolding split
split-IsSpaceless String.[] h = refl
split-IsSpaceless (String.◌∷◌ c w) h = rw (not_space c h.0, split-IsSpaceless w h.1) refl

token-IsWord : (w : String) (ts : List String) → IsWord w → token w ts ≡ w ∷ ts
token-IsWord String.[] ts h = elim h [ ]
token-IsWord (String.◌∷◌ c w) ts h = refl

IsWord-IsSpaceless : (w : String) → IsWord w → IsSpaceless w
IsWord-IsSpaceless String.[] h = tt
IsWord-IsSpaceless (String.◌∷◌ c w) h = h

-- Non-empty words without spaces, typed with one space between two, are the tokens of the line.
pub tokens-join : (ws : List String) → All IsWord ws → tokens (join ws) ≡ ws
unfolding tokens join split
tokens-join [] h = refl
tokens-join (w ∷ []) h =
    rw (split-IsSpaceless w (IsWord-IsSpaceless w h.0), token-IsWord w [] h.0) refl
tokens-join (w ∷ v ∷ ws) h =
    let ih = tokens-join (v ∷ ws) h.1 in
    rw (split-append w (join (v ∷ ws)) (IsWord-IsSpaceless w h.0), token-IsWord w _ h.0)
      (ap (λ t. w ∷ t) ih)

-- `strncpy` of n characters at most
unfoldable pub prefix : ℕ → String → String
prefix zero s = ""
prefix (suc n) String.[] = ""
prefix (suc n) (String.◌∷◌ c s) = String.◌∷◌ c (prefix n s)

abbrev pub size : String → ℕ
size String.[] = 0
size (String.◌∷◌ c s) = suc (size s)

pub prefix-size : (n : ℕ) (s : String) → size s ≤ n → prefix n s ≡ s
unfolding prefix
prefix-size zero String.[] h = refl
prefix-size zero (String.◌∷◌ c s) h = absurd (omega arith)
prefix-size (suc n) String.[] h = refl
prefix-size (suc n) (String.◌∷◌ c s) h = ap (λ t. String.◌∷◌ c t) (prefix-size n s (omega arith))
