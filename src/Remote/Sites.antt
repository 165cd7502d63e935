-- ===== src/Remote/Sites.antt =====
-- How the places of blocks change when a whole list does.
use llheap.Prelude.{◌≡◌, ◌≢◌, ◌↔◌, sym, refl}
use llheap.Remote.Placed.{Site, outside, in_use, freeing, returned, taken, free}

-- The blocks of the remote list become those of the fetched list, and these the free ones.
abbrev pub fetch_site : Site → Site
fetch_site outside = outside
fetch_site in_use = in_use
fetch_site (freeing t) = freeing t
fetch_site returned = taken
fetch_site taken = taken
fetch_site free = free

abbrev pub keep_site : Site → Site
keep_site outside = outside
keep_site in_use = in_use
keep_site (freeing t) = freeing t
keep_site returned = returned
keep_site taken = free
keep_site free = free

pub fetch_site-same : (x S : Site) → S ≢ returned → S ≢ taken → (x ≡ S) ↔ (fetch_site x ≡ S)
fetch_site-same outside S nr nt = (λ e. e, λ e. e)
fetch_site-same in_use S nr nt = (λ e. e, λ e. e)
fetch_site-same (freeing t) S nr nt = (λ e. e, λ e. e)
fetch_site-same returned S nr nt = (λ e. absurd (nr (sym e)), λ e. absurd (nt (sym e)))
fetch_site-same taken S nr nt = (λ e. e, λ e. e)
fetch_site-same free S nr nt = (λ e. e, λ e. e)

pub fetch_site-taken : (x : Site) → x ≢ taken → (x ≡ returned) ↔ (fetch_site x ≡ taken)
fetch_site-taken outside n = (λ e. cc, λ e. cc)
fetch_site-taken in_use n = (λ e. cc, λ e. cc)
fetch_site-taken (freeing t) n = (λ e. cc, λ e. cc)
fetch_site-taken returned n = (λ e. refl, λ e. refl)
fetch_site-taken taken n = (λ e. cc, λ e. absurd (n e))
fetch_site-taken free n = (λ e. cc, λ e. cc)

pub fetch_site-returned : (x : Site) → fetch_site x ≢ returned
fetch_site-returned outside e = cc
fetch_site-returned in_use e = cc
fetch_site-returned (freeing t) e = cc
fetch_site-returned returned e = cc
fetch_site-returned taken e = cc
fetch_site-returned free e = cc

pub keep_site-same : (x S : Site) → S ≢ taken → S ≢ free → (x ≡ S) ↔ (keep_site x ≡ S)
keep_site-same outside S nt nf = (λ e. e, λ e. e)
keep_site-same in_use S nt nf = (λ e. e, λ e. e)
keep_site-same (freeing t) S nt nf = (λ e. e, λ e. e)
keep_site-same returned S nt nf = (λ e. e, λ e. e)
keep_site-same taken S nt nf = (λ e. absurd (nt (sym e)), λ e. absurd (nf (sym e)))
keep_site-same free S nt nf = (λ e. e, λ e. e)

pub keep_site-free : (x : Site) → x ≢ free → (x ≡ taken) ↔ (keep_site x ≡ free)
keep_site-free outside n = (λ e. cc, λ e. cc)
keep_site-free in_use n = (λ e. cc, λ e. cc)
keep_site-free (freeing t) n = (λ e. cc, λ e. cc)
keep_site-free returned n = (λ e. cc, λ e. cc)
keep_site-free taken n = (λ e. refl, λ e. refl)
keep_site-free free n = (λ e. cc, λ e. absurd (n e))

pub keep_site-taken : (x : Site) → keep_site x ≢ taken
keep_site-taken outside e = cc
keep_site-taken in_use e = cc
keep_site-taken (freeing t) e = cc
keep_site-taken returned e = cc
keep_site-taken taken e = cc
keep_site-taken free e = cc

pub then_iff : {P Q R : Type 0} → P ↔ Q → Q ↔ R → P ↔ R
then_iff p q = (λ x. q.0 (p.0 x), λ x. p.1 (q.1 x))
