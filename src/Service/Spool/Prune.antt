-- ===== src/Service/Spool/Prune.antt =====
-- Which entries the spool gives up, and how many it holds (cmd/agent_smith/postback_spool.go).
use agent_smith_go.Base.{
  ℕ, ◌-◌, ◌≡◌, refl, sym, ap, ◌∙◌, arith, Bool, true, false, not, ◌&&◌, ◌||◌, List, [], ◌∷◌, ◌++◌,
  ℤ, pos_part, ◌-ℤ◌, Bytes, length, take, keep_if, dec_lt, lt→ltb, suc, eq_bytes,
}
use agent_smith_go.Service.Spool.{
  DirEntry, PostbackSpool, Disk, list_locked, remove_name, remove_locked, is_expired, drop_expired,
  evict, prune_locked,
}

unfoldable pub mem_name : Bytes → List Bytes → Bool
mem_name n [] = false
mem_name n (m ∷ names) = eq_bytes n m || mem_name n names

-- The directory without the files of these names.
unfoldable pub without : List Bytes → List DirEntry → List DirEntry
without names dir = keep_if (λ (e : DirEntry). not (mem_name e.name names)) dir

-- No removal fails.
abbrev pub Removable : Disk → Type 0
Removable disk = (n : Bytes) → disk.remove_fails n ≡ false

keep_if-all {ℓ} :
    {A : Type ℓ} (p : A → Bool) (xs : List A) → ((x : A) → p x ≡ true) → keep_if p xs ≡ xs
keep_if-all p [] h = refl
keep_if-all p (x ∷ xs) h = rw (h x) (ap (◌∷◌ x) (keep_if-all p xs h))

keep_if-keep_if {ℓ} :
    {A : Type ℓ} (p q r : A → Bool) (xs : List A)
    → ((x : A) → r x ≡ (p x && q x))
    → keep_if q (keep_if p xs) ≡ keep_if r xs
keep_if-keep_if p q r [] h = refl
keep_if-keep_if p q r (x ∷ xs) h = ground (arith, h x, keep_if-keep_if p q r xs h)

pub without-nil : (dir : List DirEntry) → without [] dir ≡ dir
unfolding without mem_name
without-nil dir = keep_if-all _ dir (λ e. refl)

pub without-remove_name :
    (n : Bytes) (names : List Bytes) (dir : List DirEntry)
    → without names (remove_name n dir) ≡ without (n ∷ names) dir
unfolding without mem_name remove_name
without-remove_name n names dir = keep_if-keep_if _ _ _ dir (λ e. ground arith)

pub mem_name-append :
    (n : Bytes) (xs ys : List Bytes) → mem_name n (xs ++ ys) ≡ (mem_name n xs || mem_name n ys)
unfolding mem_name
mem_name-append n [] ys = refl
mem_name-append n (x ∷ xs) ys = ground (arith, mem_name-append n xs ys)

pub without-without :
    (xs ys : List Bytes) (dir : List DirEntry)
    → without ys (without xs dir) ≡ without (xs ++ ys) dir
unfolding without
without-without xs ys dir =
    keep_if-keep_if _ _ _ dir (λ e. ground (arith, mem_name-append e.name xs ys))

-- The names that pruning to `keep` entries gives up: the expired ones, and the oldest others.
unfoldable pub doomed : ℤ → ℕ → List Bytes → List Bytes
doomed cutoff keep names =
    let survivors = keep_if (λ n. not (is_expired cutoff n)) names in
    keep_if (is_expired cutoff) names ++ take (length survivors - keep) survivors

module _ (disk : Disk) (ok : Removable disk) where
  dir-remove_locked :
      (n : Bytes) (s : PostbackSpool) → (remove_locked disk n s).dir ≡ remove_name n s.dir
  unfolding remove_locked
  dir-remove_locked n s = ground (arith, ok n)

  drop_expired_names :
      (cutoff : ℤ) (names : List Bytes) (s : PostbackSpool)
      → (drop_expired disk cutoff names s).0 ≡ keep_if (λ n. not (is_expired cutoff n)) names
  unfolding drop_expired
  drop_expired_names cutoff [] s = refl
  drop_expired_names cutoff (n ∷ names) s = ground (
    arith,
    drop_expired_names cutoff names (remove_locked disk n s),
    drop_expired_names cutoff names s,
  )

  drop_expired_dir :
      (cutoff : ℤ) (names : List Bytes) (s : PostbackSpool)
      → (drop_expired disk cutoff names s).1.dir ≡ without (keep_if (is_expired cutoff) names) s.dir
  unfolding drop_expired
  drop_expired_dir cutoff [] s = sym (without-nil s.dir)
  drop_expired_dir cutoff (n ∷ names) s = ground (
    arith,
    dir-remove_locked n s,
    drop_expired_dir cutoff names (remove_locked disk n s),
    drop_expired_dir cutoff names s,
    without-remove_name n (keep_if (is_expired cutoff) names) s.dir,
    ap (without (keep_if (is_expired cutoff) names)) (dir-remove_locked n s),
  )

  evict_dir :
      (keep : ℕ) (names : List Bytes) (s : PostbackSpool)
      → (evict disk keep names s).dir ≡ without (take (length names - keep) names) s.dir
  unfolding evict
  evict_dir keep [] s = let e : 0 - keep ≡ 0 = omega arith in rw e (sym (without-nil s.dir))
  evict_dir keep (n ∷ names) s = elim (dec_lt keep (suc (length names))) [
    | yes more ↦
        let e : suc (length names) - keep ≡ suc (length names - keep) = omega arith in
        rw (lt→ltb _ _ more, e)
          (evict_dir keep names (remove_locked disk n s)
            ∙ ap (without (take (length names - keep) names)) (dir-remove_locked n s)
            ∙ without-remove_name n (take (length names - keep) names) s.dir)
    | no enough ↦
        let e : suc (length names) - keep ≡ 0 = omega arith in
        rw e (ground (arith, without-nil s.dir))
  ]

  -- If every removal succeeds, pruning removes exactly the expired entries and, of the others in the
  -- order of their names, the first ones beyond the number to keep.
  pub prune_locked_dir :
      (now keep : ℤ) (s : PostbackSpool)
      → (prune_locked disk now keep s).dir
        ≡ without (doomed (now -ℤ s.max_age) (pos_part keep) (list_locked disk s.dir)) s.dir
  unfolding prune_locked doomed
  prune_locked_dir now keep s =
      let cutoff = now -ℤ s.max_age in
      let names = list_locked disk s.dir in
      let r = drop_expired disk cutoff names s in
      evict_dir (pos_part keep) r.0 r.1
      ∙ ap (without (take (length r.0 - pos_part keep) r.0)) (drop_expired_dir cutoff names s)
      ∙ without-without _ _ s.dir
      ∙ ap
          (λ (survivors : List Bytes).
            without
              (keep_if (is_expired cutoff) names
                ++ take (length survivors - pos_part keep) survivors)
              s.dir)
          (drop_expired_names cutoff names s)
