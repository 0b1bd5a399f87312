-- ===== src/Store/Etcd/Keys.antt =====
-- The keys of store/etcd/rulesets.go: no two of them meet, for paths that Put accepts.
use mathlib.Core.List.{reverse, reverse-append, reverse-reverse}
use regula.Prelude.{
  String, List, [], ◌∷◌, ◌++◌, ◌≡◌, refl, sym, ap, ap₂, ◌∙◌, All, All-append, append-nil,
}
use regula.Paths.{split, path_join, is_rooted}
use regula.Paths.Parts.{IsOrdinary, all_parts}
use regula.Paths.Joining.{path_join-inj}
use regula.Store.Etcd.Parts.{IsPart, IsPath-IsOrdinary, split-inj}
use regula.Store.Names.Validation.{IsPath}
use regula.Store.Etcd.{rulesets_path, checksums_path, signatures_path, latest_ruleset_path}

-- A key of one kind.
abbrev key : String → String → List String → String
key ns kind tail = path_join (ns ∷ "rulesets" ∷ kind ∷ tail)

module _ (ns : String) where
  key_parts :
      (k : String) (tail : List String)
      → IsPart k
      → all_parts ("rulesets" ∷ k ∷ tail) ≡ "rulesets" ∷ k ∷ all_parts tail
  unfolding split
  key_parts k tail h = rw h.1 refl

  key-IsOrdinary :
      (k : String) (tail : List String)
      → IsPart k
      → All IsOrdinary (all_parts tail)
      → All IsOrdinary (all_parts ("rulesets" ∷ k ∷ tail))
  key-IsOrdinary k tail h t = rw (key_parts k tail h) (((λ e. cc), (λ e. cc), (λ e. cc)), (h.0, t))

  key-inj :
      (k l : String) (s t : List String)
      → IsPart k
      → IsPart l
      → All IsOrdinary (all_parts s)
      → All IsOrdinary (all_parts t)
      → key ns k s ≡ key ns l t
      → (k ≡ l) × (all_parts s ≡ all_parts t)
  unfolding is_rooted
  key-inj k l s t hk hl hs ht e =
      let same =
        sym (key_parts k s hk)
        ∙ path_join-inj ns "rulesets" "rulesets" (k ∷ s) (l ∷ t) (λ x. cc) refl
            (key-IsOrdinary k s hk hs) (λ x. cc) refl (key-IsOrdinary l t hl ht) e
        ∙ key_parts l t hl in
      (cc, cc)

-- The keys that the service uses.
pub data Key : Type 0 where
  checksum_key signature_key latest_key : String → Key
  entry_key : String → String → Key

unfoldable pub key_path : String → Key → String
unfolding checksums_path signatures_path latest_ruleset_path rulesets_path
key_path ns (checksum_key p) = checksums_path ns p
key_path ns (signature_key p) = signatures_path ns p
key_path ns (latest_key p) = latest_ruleset_path ns p
key_path ns (entry_key p v) = rulesets_path ns p v

-- A key of an accepted path.
abbrev pub IsKey : Key → Type 0
IsKey (checksum_key p) = IsPath p
IsKey (signature_key p) = IsPath p
IsKey (latest_key p) = IsPath p
IsKey (entry_key p v) = IsPath p × IsPart v

abbrev kind_of : Key → String
kind_of (checksum_key p) = "checksums"
kind_of (signature_key p) = "signatures"
kind_of (latest_key p) = "latest"
kind_of (entry_key p v) = "entries"

abbrev tail_of : Key → List String
tail_of (checksum_key p) = p ∷ []
tail_of (signature_key p) = p ∷ []
tail_of (latest_key p) = p ∷ []
tail_of (entry_key p v) = p ∷ v ∷ []

kind_of-IsPart : (k : Key) → IsPart (kind_of k)
unfolding split
kind_of-IsPart (checksum_key p) = (((λ e. cc), (λ e. cc), (λ e. cc)), refl)
kind_of-IsPart (signature_key p) = (((λ e. cc), (λ e. cc), (λ e. cc)), refl)
kind_of-IsPart (latest_key p) = (((λ e. cc), (λ e. cc), (λ e. cc)), refl)
kind_of-IsPart (entry_key p v) = (((λ e. cc), (λ e. cc), (λ e. cc)), refl)

key_path-key : (ns : String) (k : Key) → key_path ns k ≡ key ns (kind_of k) (tail_of k)
unfolding key_path
key_path-key ns (checksum_key p) = refl
key_path-key ns (signature_key p) = refl
key_path-key ns (latest_key p) = refl
key_path-key ns (entry_key p v) = refl

path-IsOrdinary : (p : String) → IsPath p → All IsOrdinary (all_parts (p ∷ []))
path-IsOrdinary p h = rw (append-nil (split p)) (IsPath-IsOrdinary p h)

tail_of-IsOrdinary : (k : Key) → IsKey k → All IsOrdinary (all_parts (tail_of k))
tail_of-IsOrdinary (checksum_key p) h = path-IsOrdinary p h
tail_of-IsOrdinary (signature_key p) h = path-IsOrdinary p h
tail_of-IsOrdinary (latest_key p) h = path-IsOrdinary p h
tail_of-IsOrdinary (entry_key p v) (h, (o, one)) =
    All-append IsOrdinary (split p) (split v ++ []) (IsPath-IsOrdinary p h) (rw one (o, tt))

path_of_parts : (p q : String) → all_parts (p ∷ []) ≡ all_parts (q ∷ []) → p ≡ q
path_of_parts p q e = split-inj p q (sym (append-nil (split p)) ∙ e ∙ append-nil (split q))

snoc-inj {ℓ} :
    {A : Type ℓ} (xs ys : List A) (x y : A) → xs ++ x ∷ [] ≡ ys ++ y ∷ [] → (xs ≡ ys) × (x ≡ y)
snoc-inj xs ys x y e =
    let turned : x ∷ reverse xs ≡ y ∷ reverse ys =
      sym (reverse-append xs (x ∷ [])) ∙ ap reverse e ∙ reverse-append ys (y ∷ []) in
    let rest : reverse xs ≡ reverse ys = cc in
    (sym (reverse-reverse xs) ∙ ap reverse rest ∙ reverse-reverse ys, cc)

entry_of_parts :
    (p q v w : String)
    → IsPart v
    → IsPart w
    → all_parts (p ∷ v ∷ []) ≡ all_parts (q ∷ w ∷ [])
    → entry_key p v ≡ entry_key q w
entry_of_parts p q v w (_, one) (_, other) e =
    let (paths, versions) = snoc-inj (split p) (split q) v w (rw (one, other) at e) in
    ap₂ entry_key (split-inj p q paths) versions

key_of_parts :
    (k l : Key)
    → IsKey k
    → IsKey l
    → kind_of k ≡ kind_of l
    → all_parts (tail_of k) ≡ all_parts (tail_of l)
    → k ≡ l
key_of_parts (checksum_key p) (checksum_key q) h i _ e = ap checksum_key (path_of_parts p q e)
key_of_parts (signature_key p) (signature_key q) h i _ e = ap signature_key (path_of_parts p q e)
key_of_parts (latest_key p) (latest_key q) h i _ e = ap latest_key (path_of_parts p q e)
key_of_parts (entry_key p v) (entry_key q w) (_, h) (_, i) _ e = entry_of_parts p q v w h i e
key_of_parts (checksum_key p) (signature_key q) h i e _ = cc
key_of_parts (checksum_key p) (latest_key q) h i e _ = cc
key_of_parts (checksum_key p) (entry_key q w) h i e _ = cc
key_of_parts (signature_key p) (checksum_key q) h i e _ = cc
key_of_parts (signature_key p) (latest_key q) h i e _ = cc
key_of_parts (signature_key p) (entry_key q w) h i e _ = cc
key_of_parts (latest_key p) (checksum_key q) h i e _ = cc
key_of_parts (latest_key p) (signature_key q) h i e _ = cc
key_of_parts (latest_key p) (entry_key q w) h i e _ = cc
key_of_parts (entry_key p v) (checksum_key q) h i e _ = cc
key_of_parts (entry_key p v) (signature_key q) h i e _ = cc
key_of_parts (entry_key p v) (latest_key q) h i e _ = cc

-- Below one namespace, whatever it is, the keys of accepted paths are different: of two kinds, of
-- two paths, or of two versions that are one ordinary part.
pub key_path-inj :
    (ns : String) (k l : Key) → IsKey k → IsKey l → key_path ns k ≡ key_path ns l → k ≡ l
key_path-inj ns k l h i e =
    let (kinds, parts) =
      key-inj ns (kind_of k) (kind_of l) (tail_of k) (tail_of l) (kind_of-IsPart k)
        (kind_of-IsPart l) (tail_of-IsOrdinary k h) (tail_of-IsOrdinary l i)
        (sym (key_path-key ns k) ∙ e ∙ key_path-key ns l) in
    key_of_parts k l h i kinds parts
