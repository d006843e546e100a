-- ===== src/Kubectl/Services/NameRule.antt =====
-- The host names that AWS gives to load balancers, and the name that the code finds in them
-- (kubectl/service.go, getAWSLoadBalancerNameFromHostname).
use kubergrunt.Prelude.{
  ℕ, false, List, [], ◌∷◌, ◌++◌, ◌≡◌, ◌≢◌, refl, ap, ◌∙◌, ◌==◌, arith, All-append,
}
use kubergrunt.Strings.Split.{
  split, join, Lacks, onto_head, split-append_sep, split-Lacks, split-ne-nil, join-split,
}
use kubergrunt.Strings.Dict.{text_eq}
use kubergrunt.Cloud.Types.{Text}
use kubergrunt.Cloud.Request.{reply}
use kubergrunt.Kubectl.Services.LbName.{
  internal, but_last, name_of_parts, first_part, get_aws_load_balancer_name_from_hostname,
}

onto_head-snoc :
    (c : ℕ) (ps : List Text) (last : Text)
    → ps ≢ []
    → onto_head c (ps ++ (last ∷ [])) ≡ onto_head c ps ++ (last ∷ [])
unfolding onto_head
onto_head-snoc c [] last h = absurd (h refl)
onto_head-snoc c (p ∷ ps) last h = refl

-- A last part that lacks the separator is split off.
split-snoc :
    (sep : ℕ) (s last : Text)
    → Lacks sep last
    → split sep (s ++ (sep ∷ last)) ≡ split sep s ++ (last ∷ [])
unfolding split
split-snoc sep [] last h = ground (arith, split-Lacks sep last h)
split-snoc sep (c ∷ s) last h =
    ground
      (arith, split-snoc sep s last h, onto_head-snoc c (split sep s) last (split-ne-nil sep s))

but_last-snoc : (ps : List Text) (last : Text) → but_last (ps ++ (last ∷ [])) ≡ ps
unfolding but_last
but_last-snoc [] last = refl
but_last-snoc (p ∷ []) last = refl
but_last-snoc (p ∷ q ∷ ps) last = ap (λ l. p ∷ l) (but_last-snoc (q ∷ ps) last)

-- The name that is found in parts that end with a suffix.
name_of_parts-plain :
    (hostname suffix : Text) (ps : List Text)
    → ps ≢ []
    → text_eq (first_part ps) internal ≡ false
    → name_of_parts hostname (ps ++ (suffix ∷ [])) ≡ reply (join b'-' ps)
unfolding name_of_parts first_part but_last
name_of_parts-plain hostname suffix [] some_part plain = absurd (some_part refl)
name_of_parts-plain hostname suffix (p ∷ []) some_part plain = rw plain refl
name_of_parts-plain hostname suffix (p ∷ q ∷ ps) some_part plain =
    rw (plain, but_last-snoc (q ∷ ps) suffix) refl

name_of_parts-internal :
    (hostname suffix : Text) (ps : List Text)
    → ps ≢ []
    → name_of_parts hostname (internal ∷ (ps ++ (suffix ∷ []))) ≡ reply (join b'-' ps)
unfolding name_of_parts but_last text_eq
name_of_parts-internal hostname suffix [] some_part = absurd (some_part refl)
name_of_parts-internal hostname suffix (p ∷ ps) some_part = rw (but_last-snoc (p ∷ ps) suffix) refl

-- The first label of a host name that begins with it.
label :
    (subdomain domain : Text)
    → Lacks b'.' subdomain
    → first_part (split b'.' (subdomain ++ (b'.' ∷ domain))) ≡ subdomain
unfolding first_part
label subdomain domain lacks = rw (split-append_sep b'.' subdomain domain lacks) refl

-- The host name that AWS gives to a load balancer of a name.
abbrev pub hostname_of : Text → Text → Text → Text
hostname_of name suffix domain = (name ++ (b'-' ∷ suffix)) ++ (b'.' ∷ domain)

abbrev pub internal_hostname_of : Text → Text → Text → Text
internal_hostname_of name suffix domain = hostname_of (internal ++ (b'-' ∷ name)) suffix domain

label-Lacks :
    (name suffix : Text)
    → Lacks b'.' name
    → Lacks b'.' suffix
    → Lacks b'.' (name ++ (b'-' ∷ suffix))
label-Lacks name suffix no_dot no_dot' =
    All-append (λ c. (c == b'.') ≡ false) name (b'-' ∷ suffix) no_dot (refl, no_dot')

-- The name is found again in the host name `name-suffix.domain` that AWS makes of it: for a name
-- without a dot, with any number of dashes, that does not have "internal" before its first dash, a
-- suffix without dots and dashes, and any domain.
pub load_balancer_name-plain :
    (name suffix domain : Text)
    → Lacks b'.' name
    → Lacks b'.' suffix
    → Lacks b'-' suffix
    → text_eq (first_part (split b'-' name)) internal ≡ false
    → get_aws_load_balancer_name_from_hostname (hostname_of name suffix domain) ≡ reply name
unfolding get_aws_load_balancer_name_from_hostname
load_balancer_name-plain name suffix domain no_dot no_dot' no_dash plain =
    rw
      (
        label (name ++ (b'-' ∷ suffix)) domain (label-Lacks name suffix no_dot no_dot'),
        split-snoc b'-' name suffix no_dash,
      )
      (name_of_parts-plain (hostname_of name suffix domain) suffix (split b'-' name)
          (split-ne-nil b'-' name) plain
        ∙ ap reply (join-split b'-' name))

-- The name is found again in the host name `internal-name-suffix.domain` of an internal load
-- balancer: for a name without a dot, with any number of dashes, a suffix without dots and dashes,
-- and any domain.
pub load_balancer_name-internal :
    (name suffix domain : Text)
    → Lacks b'.' name
    → Lacks b'.' suffix
    → Lacks b'-' suffix
    → get_aws_load_balancer_name_from_hostname (internal_hostname_of name suffix domain)
      ≡ reply name
unfolding get_aws_load_balancer_name_from_hostname
load_balancer_name-internal name suffix domain no_dot no_dot' no_dash =
    ap (λ t. name_of_parts (internal_hostname_of name suffix domain) (split b'-' t))
      (label ((internal ++ (b'-' ∷ name)) ++ (b'-' ∷ suffix)) domain
        (label-Lacks (internal ++ (b'-' ∷ name)) suffix internal_no_dot no_dot'))
    ∙ ap (λ ps. name_of_parts (internal_hostname_of name suffix domain) ps)
        (split-snoc b'-' (internal ++ (b'-' ∷ name)) suffix no_dash
          ∙ ap (λ ps. ps ++ (suffix ∷ [])) (split-append_sep b'-' internal name internal_no_dash))
    ∙ name_of_parts-internal (internal_hostname_of name suffix domain) suffix (split b'-' name)
        (split-ne-nil b'-' name)
    ∙ ap reply (join-split b'-' name)
  where
    internal_no_dash : Lacks b'-' internal
    internal_no_dash = (refl, (refl, (refl, (refl, (refl, (refl, (refl, (refl, tt))))))))

    internal_no_dot : Lacks b'.' (internal ++ (b'-' ∷ name))
    internal_no_dot = (refl, (refl, (refl, (refl, (refl, (refl, (refl, (refl, (refl, no_dot)))))))))
