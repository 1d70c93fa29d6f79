-- ===== src/Transcription/Inspection/Urls/Parsed.antt =====
-- What `parse_url` promises of its result.
use textify.Prelude.{
  ℕ, Bool, true, false, ◌||◌, not, ◌≡◌, refl, sym, ◌∙◌, ap, Option, none, some, [], ◌∷◌, ◌++◌, map,
  arith, if◌then◌else◌, any, Bool-cases, Option-cases, inl, inr,
}
use textify.Texts.{
  Text, Unicode, codes, has_code, starts_with, before, after, empty, casefold, is_one_of,
  fold_ascii,
}
use textify.Texts.Laws.{
  before-absent, before-after, after_last-absent, casefold-append, starts_with_both,
}
use textify.Transcription.Faults.{value}
use textify.Transcription.Inspection.Hosts.{supported_hosts}
use textify.Transcription.Inspection.Urls.{
  UrlLibrary, SplitResult, ParsedUrl, check_netloc, one_bracket, urlsplit, hostinfo, host_part,
  hostname, has_userinfo, authority_has_port, parse_url, urlunsplit, provider_url, split_hier,
  has_scheme,
}

-- Lower case does not change the full case folding, and `urlsplit` takes only an address literal
-- between brackets, which is no supported host.
pub record UrlLaws (u : Unicode) (l : UrlLibrary) : Type 0 where
  pub fold_lower : (t : Text) → casefold u (u.lower t) ≡ casefold u t
  pub brackets :
      (n : Text)
      → l.netloc_is_valid n ≡ true
      → has_code b'[' n ≡ true
      → is_one_of supported_hosts (casefold u (hostname u n)) ≡ false

pub record Parsed (u : Unicode) (l : UrlLibrary) (p : ParsedUrl) : Type 0 where
  pub valid : l.netloc_is_valid p.split.netloc ≡ true
  pub no_userinfo : has_userinfo p.split.netloc ≡ false
  pub no_port : authority_has_port p.split.netloc ≡ false
  pub named : p.host ≡ casefold u (hostname u p.split.netloc)

abbrev ValidSplit : UrlLibrary → Option SplitResult → Type 0
ValidSplit l none = Unit
ValidSplit l (some r) = l.netloc_is_valid r.netloc ≡ true

check_netloc-valid : (l : UrlLibrary) (r : SplitResult) → ValidSplit l (check_netloc l r)
unfolding check_netloc
check_netloc-valid l r = go (one_bracket r.netloc) (l.netloc_is_valid r.netloc) refl
  where
    go :
        (a b : Bool)
        → l.netloc_is_valid r.netloc ≡ b
        → ValidSplit l (if a || not b then none else some r)
    go true b e = tt
    go false true e = e
    go false false e = tt

urlsplit-valid : (l : UrlLibrary) (url : Text) → ValidSplit l (urlsplit l url)
unfolding urlsplit
urlsplit-valid l url = check_netloc-valid l (
    if has_scheme url
    then split_hier (map fold_ascii (before b':' url)) (after b':' url)
    else split_hier [] url)

pub parse_url-Parsed :
    (u : Unicode) (l : UrlLibrary) (t : Text) (p : ParsedUrl)
    → parse_url u l t ≡ value p
    → Parsed u l p
unfolding parse_url
parse_url-Parsed u l t p e = go (urlsplit l t) refl (urlsplit-valid l t)
  where
    go : (o : Option SplitResult) → urlsplit l t ≡ o → ValidSplit l o → Parsed u l p
    go none f v = absurd (ground arith)
    go (some r) f v = elim (Option-cases (l.parse_qsl r.query)) [
      | inl q ↦ absurd (ground arith)
      | inr (ps, q) ↦ record {
        valid = ground arith;
        no_userinfo = ground arith;
        no_port = ground arith;
        named = ground arith;
      }
    ]

absent_first : (c : ℕ) (n : Text) → has_code c n ≡ false → starts_with (c ∷ []) n ≡ false
unfolding has_code any starts_with
absent_first c [] h = refl
absent_first c (d ∷ n) h = ground arith

module _ (u : Unicode) (l : UrlLibrary) (laws : UrlLaws u l) where
  plain_host :
      (n : Text)
      → has_userinfo n ≡ false
      → authority_has_port n ≡ false
      → has_code b'[' n ≡ false
      → host_part n ≡ n
  unfolding has_userinfo host_part hostinfo authority_has_port
  plain_host n h p b =
      ground (arith, after_last-absent b'@' n h, absent_first b'[' n b, before-absent b':' n)

  fold_hostname : (n : Text) → host_part n ≡ n → casefold u (hostname u n) ≡ casefold u n
  unfolding hostname
  fold_hostname n h = elim (Bool-cases (has_code b'%' n)) [
    | inl e ↦
        rw (h, hostname)
          (rw e (
            casefold-append u (u.lower (before b'%' n)) (b'%' ∷ after b'%' n)
            ∙ ap (λ t. t ++ casefold u (b'%' ∷ after b'%' n)) (laws.fold_lower (before b'%' n))
            ∙ sym (casefold-append u (before b'%' n) (b'%' ∷ after b'%' n))
            ∙ ap (casefold u) (before-after b'%' n e)))
    | inr e ↦ rw (h, hostname) (rw e (laws.fold_lower n))
  ]

  -- The host is the whole authority, but for case.
  pub Parsed-host :
      (p : ParsedUrl)
      → Parsed u l p
      → is_one_of supported_hosts p.host ≡ true
      → casefold u p.split.netloc ≡ p.host
  Parsed-host p k s = elim (Bool-cases (has_code b'[' p.split.netloc)) [
    | inl e ↦
        let f = laws.brackets p.split.netloc k.valid e in
        let g : is_one_of supported_hosts p.host ≡ false = rw k.named f in cc (s, g)
    | inr e ↦
        sym (fold_hostname p.split.netloc (plain_host p.split.netloc k.no_userinfo k.no_port e))
        ∙ sym k.named
  ]

rooted :
    (path q : Text)
    → starts_with (codes "/") path ≡ true
    → starts_with
        (codes "/")
        ((if empty path || starts_with (codes "/") path then path else b'/' ∷ path) ++ q)
      ≡ true
unfolding starts_with empty
rooted [] q h = cc h
rooted (c ∷ p) q h = ground arith

-- A provider URL begins with its authority, if the path begins with a slash.
pub provider_url-prefix :
    (u : Unicode) (r : SplitResult)
    → starts_with (codes "/") r.path ≡ true
    → starts_with (codes "https://" ++ (casefold u r.netloc ++ codes "/")) (provider_url u r) ≡ true
unfolding provider_url urlunsplit
provider_url-prefix u r h =
    starts_with_both (casefold u r.netloc) (codes "/") (
      (if empty r.path || starts_with (codes "/") r.path then r.path else b'/' ∷ r.path)
      ++ (if empty r.query then [] else b'?' ∷ r.query))
    ∙ rooted r.path (if empty r.query then [] else b'?' ∷ r.query) h
