-- ===== src/Exec/Loaded.antt =====
-- execve runs the file that the path names.
use racccoon.Base.{
  ℕ, zero, suc, ◌+◌, ◌-◌, ◌≤◌, ◌<◌, ◌≡◌, refl, sym, ap, subst, ◌∙◌, min, leb, ◌⊎◌, inl, inr, true,
  false, ltb, ◌==◌, ◌||◌, Bool-cases, List-cases, List, [], ◌∷◌, ◌++◌, Option, none, some, length,
  take, drop, append-nil, append_assoc, length-append, drop-drop, drop-eq-nil, arith, Bool,
}
use racccoon.Posix.Server.{Bytes, Server}
use racccoon.Posix.Transfer.Reading.{HoldsFile}
use racccoon.Exec.{
  Image, loaded, image_max, read_chunk, checked, image_loop, load_image, executed, execve, failed,
  e2big,
}
use racccoon.Exec.Blob.{build_blob, build_blob-fitted, whole_blob, blob_max, fitted}

take-drop-length : (k : ℕ) (xs : Bytes) → take k xs ++ drop (length (take k xs)) xs ≡ xs
take-drop-length zero xs = refl
take-drop-length (suc k) [] = refl
take-drop-length (suc k) (x ∷ xs) = ap (λ u. x ∷ u) (take-drop-length k xs)

-- Where execve has loaded an image, it either hands it to RC_SYS_EXEC, with the mark of the arguments,
-- each argument with its NUL, and, where the environment has entries, a second mark, these with their
-- NUL and one NUL more; or this is more than 16384 bytes, and the call fails with E2BIG.
pub execve-whole_blob :
    (sv : Server) (malloc : ℕ → Bool) (exec : sv.World → Bytes → Bytes → ℕ → sv.World × Bool)
    (w w' : sv.World) (path image : Bytes) (argv envp : List Bytes)
    → load_image sv malloc w path ≡ some (w', loaded image)
    → ((length (whole_blob argv envp) ≤ blob_max)
        × (execve sv malloc exec w path argv envp
            ≡ some (executed sv malloc exec (exec w' image (whole_blob argv envp) (length argv)))))
      ⊎ ((blob_max < length (whole_blob argv envp))
          × (execve sv malloc exec w path argv envp ≡ some (w', failed e2big)))
unfolding execve
execve-whole_blob sv malloc exec w w' path image argv envp e =
    let all = whole_blob argv envp in
    elim (Bool-cases (leb (length all) blob_max)) [
      | inl f ↦
          let built : build_blob argv envp ≡ some all =
            build_blob-fitted argv envp ∙ rw (fitted, f) refl in
          inl (ground arith, rw (execve, e, built) refl)
      | inr f ↦
          let built : build_blob argv envp ≡ none =
            build_blob-fitted argv envp ∙ rw (fitted, f) refl in
          inr (ground arith, rw (execve, e, built) refl)
    ]

module _ (sv : Server) (bound : ℕ) (path content : Bytes) (P : sv.World → Type 0)
    (holds : HoldsFile sv bound path content P) (fits : length content ≤ bound)
    (chunk_fits : read_chunk ≤ bound) where
  record HasLoaded (o : Option (sv.World × Image)) : Type 0 where
    world : sv.World
    ends : o ≡ some (world, loaded content)
    keeps : P world

  image_loop-HasLoaded :
      (f : ℕ) (w : sv.World) (out : Bytes)
      → P w
      → 0 < length content
      → out ++ drop (length out) content ≡ content
      → length content < f + length out
      → HasLoaded (image_loop sv f w path (length content) out)
  unfolding image_loop
  image_loop-HasLoaded zero w out ok some_content part l =
      absurd (omega (arith, ap length part, length-append out (drop (length out) content)))
  image_loop-HasLoaded (suc f) w out ok some_content part l =
      elim (Bool-cases (ltb (length out) (length content))) [
        | inr e ↦
            rw (image_loop, e)
              (record {
                world = w;
                ends =
                    ap (λ i. some (w, i)) (all_of content (finished (ground arith)) some_content);
                keeps = ok;
              })
        | inl e ↦
            let n = min (length content - length out) read_chunk in
            let (k, got, short, eof) =
              holds.delivers w n (length out) ok (ground arith) (omega arith) (ground arith) in
            let kept =
              holds.keeps w n (length out) ok (ground arith) (omega arith) (ground arith) in
            elim (List-cases (take k (drop (length out) content))) [
              | inl c ↦ absurd (ground (arith, eof c))
              | inr (b, bs, c) ↦
                  let r =
                    image_loop-HasLoaded f (sv.read_at w path n (length out)).0 (out ++ b ∷ bs) kept
                      some_content (later k b bs c) (omega (arith, length-append out (b ∷ bs))) in
                  rw (image_loop, e, got ∙ ap some c)
                    (record { world = r.world; ends = r.ends; keeps = r.keeps })
            ]
      ]
    where
      finished : length content ≤ length out → out ≡ content
      finished h =
          sym (append-nil out)
          ∙ ap (λ u. out ++ u) (sym (drop-eq-nil (length out) content h))
          ∙ part

      all_of : (c : Bytes) → out ≡ c → 0 < length c → checked sv out ≡ loaded c
      all_of [] e h = absurd (omega arith)
      all_of (b ∷ bs) e h = ap (checked sv) e

      later :
          (k b : ℕ) (bs : Bytes)
          → take k (drop (length out) content) ≡ b ∷ bs
          → (out ++ b ∷ bs) ++ drop (length (out ++ b ∷ bs)) content ≡ content
      later k b bs c =
          let rest = drop (length out) content in
          append_assoc out (b ∷ bs) _
          ∙ ap (λ u. out ++ u)
              (ap (λ i. (b ∷ bs) ++ drop i content) (length-append out (b ∷ bs))
                ∙ ap (λ u. (b ∷ bs) ++ u) (sym (drop-drop (length out) (length (b ∷ bs)) content))
                ∙ subst (λ u. u ++ drop (length u) rest ≡ rest) c (take-drop-length k rest))
          ∙ part

  module _ (malloc : ℕ → Bool) (w w' : sv.World) (kind : ℕ)
      (found : sv.stat w path ≡ (w', some (record { size = length content; kind = kind })))
      (ok : P w') (file : (kind == 1) ≡ false) (some_content : 0 < length content)
      (small : length content ≤ image_max)
      (room : malloc (length content + 16384 + 16) ≡ true) where
    load_image-HasLoaded : HasLoaded (load_image sv malloc w path)
    unfolding load_image
    load_image-HasLoaded =
        let sized : (length content == 0 || ltb image_max (length content)) ≡ false =
          ground arith in
        rw (load_image, found, file, sized, room)
          (image_loop-HasLoaded (suc (length content)) w' [] ok some_content refl (omega arith))

    -- execve of a file of one byte to 1 MiB hands its whole content, the blob of the arguments and of
    -- the environment and the number of arguments to RC_SYS_EXEC, whatever the pieces in which the file
    -- server delivers the file, where there is memory for it and the blob fits.
    pub execve-executed :
        (exec : sv.World → Bytes → Bytes → ℕ → sv.World × Bool) (argv envp : List Bytes) (b : Bytes)
        → build_blob argv envp ≡ some b
        → (w'' : sv.World) × (execve sv malloc exec w path argv envp
            ≡ some (executed sv malloc exec (exec w'' content b (length argv))))
          × P w''
    unfolding execve
    execve-executed exec argv envp b built =
        let r = load_image-HasLoaded in (r.world, rw (execve, r.ends, built) refl, r.keeps)
