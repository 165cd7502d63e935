-- ===== src/Larson/Shuffle.antt =====
-- larson.cc: the random permutation of the chunks in `warmup`.
use llheap.Prelude.{
  ℕ, zero, suc, ◌%◌, ◌≤◌, ◌<◌, ◌≡◌, ◌∙◌, refl, ap, arith, ◌==◌, if◌then◌else◌, update,
}
use llheap.Larson.{Lran2, lran2}

-- The elements `a` and `b` of an array change places.
abbrev pub exchange : (ℕ → ℕ) → (a b : ℕ) → ℕ → ℕ
exchange p a b = update (update p a (p b)) b (p a)

-- The loop of `warmup` that permutes the first `cblks` chunks, with their sizes.
unfoldable pub shuffle : (cblks : ℕ) → Lran2 → (blkp blksize : ℕ → ℕ) → (ℕ → ℕ) × (ℕ → ℕ) × Lran2
shuffle zero g blkp blksize = (blkp, blksize, g)
shuffle (suc c) g blkp blksize =
    let (r, next) = lran2 g in
    let victim = r % suc c in shuffle c next (exchange blkp victim c) (exchange blksize victim c)

-- The arrays `p'` and `s'` are `p` and `s` with their first `n` elements in another order, the same
-- one for both: `source` is where an element comes from, and `target` where it went.
pub record IsPermuted (n : ℕ) (p s p' s' : ℕ → ℕ) : Type 0 where
  pub source : ℕ → ℕ
  pub target : ℕ → ℕ
  pub source_below : (i : ℕ) → i < n → source i < n
  pub target_below : (i : ℕ) → i < n → target i < n
  pub source-target : (i : ℕ) → source (target i) ≡ i
  pub target-source : (i : ℕ) → target (source i) ≡ i
  pub blocks : (i : ℕ) → p' i ≡ p (source i)
  pub sizes : (i : ℕ) → s' i ≡ s (source i)

IsPermuted-refl : (n : ℕ) (p s : ℕ → ℕ) → IsPermuted n p s p s
IsPermuted-refl n p s = record {
  source = λ i. i;
  target = λ i. i;
  source_below = λ i h. h;
  target_below = λ i h. h;
  source-target = λ i. refl;
  target-source = λ i. refl;
  blocks = λ i. refl;
  sizes = λ i. refl;
}

IsPermuted-trans :
    (n : ℕ) (p s p' s' p2 s2 : ℕ → ℕ)
    → IsPermuted n p s p' s'
    → IsPermuted n p' s' p2 s2
    → IsPermuted n p s p2 s2
IsPermuted-trans n p s p' s' p2 s2 f g = record {
  source = λ i. f.source (g.source i);
  target = λ i. g.target (f.target i);
  source_below = λ i h. f.source_below (g.source i) (g.source_below i h);
  target_below = λ i h. g.target_below (f.target i) (f.target_below i h);
  source-target = λ i. ap f.source (g.source-target (f.target i)) ∙ f.source-target i;
  target-source = λ i. ap g.target (f.target-source (g.source i)) ∙ g.target-source i;
  blocks = λ i. g.blocks i ∙ f.blocks (g.source i);
  sizes = λ i. g.sizes i ∙ f.sizes (g.source i);
}

-- Places `a` and `b` in exchange.
abbrev other : (a b i : ℕ) → ℕ
other a b i = if i == b then a else if i == a then b else i

exchange-other : (p : ℕ → ℕ) (a b i : ℕ) → exchange p a b i ≡ p (other a b i)
unfolding update
exchange-other p a b i = ground arith

other-other : (a b i : ℕ) → other a b (other a b i) ≡ i
other-other a b i = ground arith

other_below : (n a b i : ℕ) → a < n → b < n → i < n → other a b i < n
other_below n a b i ha hb hi = ground arith

exchange-IsPermuted :
    (n a b : ℕ) (p s : ℕ → ℕ) → a < n → b < n → IsPermuted n p s (exchange p a b) (exchange s a b)
exchange-IsPermuted n a b p s ha hb = record {
  source = other a b;
  target = other a b;
  source_below = λ i h. other_below n a b i ha hb h;
  target_below = λ i h. other_below n a b i ha hb h;
  source-target = other-other a b;
  target-source = other-other a b;
  blocks = exchange-other p a b;
  sizes = exchange-other s a b;
}

-- The loop of `warmup` that mixes the chunks stays inside the arrays and permutes them: each chunk
-- is afterwards at exactly one place, and its size is at the same place.
pub shuffle-IsPermuted :
    (n cblks : ℕ) (g : Lran2) (p s : ℕ → ℕ)
    → cblks ≤ n
    → let (p', s', _) = shuffle cblks g p s in IsPermuted n p s p' s'
unfolding shuffle
shuffle-IsPermuted n zero g p s h = IsPermuted-refl n p s
shuffle-IsPermuted n (suc c) g p s h =
    let (r, next) = lran2 g in
    let victim = r % suc c in
    IsPermuted-trans n p s (exchange p victim c) (exchange s victim c) _ _
      (exchange-IsPermuted n victim c p s (omega (arith, h)) (omega (arith, h)))
      (shuffle-IsPermuted n c next (exchange p victim c) (exchange s victim c) (omega (arith, h)))
