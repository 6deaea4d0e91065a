-- ===== src/Release/Checking.antt =====
-- packages/shared/src/release.ts, `verifyReleaseV2`: what it takes for the loop over the entries to open
-- every file, and what the files that it returns are.
use dash_ota.Base.{
  ◌≡◌, refl, ap, ◌∙◌, arith, true, false, Option, none, some, List, [], ◌∷◌, Text, eq_iff,
  Option-cases, inl, inr,
}
use dash_ota.Base.Dict.{Dict, get, set, get-set}
use dash_ota.Manifest.{FileEntry}
use dash_ota.Providers.{Bytes}
use dash_ota.Release.{ArchiveFile, Primitives, built, with_file, open_blob, open_files}

module _ (p : Primitives) (fetch : Text → Option Bytes) (content_key : Option Bytes) where
  -- Each entry by itself opens to its file.
  abbrev pub Opens : List ArchiveFile → List FileEntry → Type 0
  Opens [] [] = Unit {0}
  Opens (f ∷ fs) (e ∷ es) =
      (e.path ≡ f.path)
      × (open_blob p content_key e (fetch e.blob.sha256) ≡ built f.content)
      × Opens fs es
  Opens _ _ = true ≡ false

  -- Entries that share a blob have the same content.
  abbrev pub Agrees : FileEntry → Bytes → List ArchiveFile → List FileEntry → Type 0
  Agrees e content (f ∷ fs) (e' ∷ es) =
      (e.blob.sha256 ≡ e'.blob.sha256 → content ≡ f.content) × Agrees e content fs es
  Agrees e content _ _ = Unit {0}

  abbrev pub Agree : List ArchiveFile → List FileEntry → Type 0
  Agree (f ∷ fs) (e ∷ es) = Agrees e f.content fs es × Agree fs es
  Agree _ _ = Unit {0}

  -- What the cache holds for an entry is the content of its file.
  abbrev pub IsCoherent : Dict Bytes → List ArchiveFile → List FileEntry → Type 0
  IsCoherent cache (f ∷ fs) (e ∷ es) =
      ((c : Bytes) → get cache e.blob.sha256 ≡ some c → c ≡ f.content) × IsCoherent cache fs es
  IsCoherent cache _ _ = Unit {0}

  pub empty-IsCoherent : (fs : List ArchiveFile) (es : List FileEntry) → IsCoherent [] fs es
  unfolding get
  empty-IsCoherent [] es = tt
  empty-IsCoherent (f ∷ fs) [] = tt
  empty-IsCoherent (f ∷ fs) (e ∷ es) = ((λ c found. ground arith), empty-IsCoherent fs es)

  set-IsCoherent :
      (cache : Dict Bytes) (e : FileEntry) (content : Bytes) (fs : List ArchiveFile)
      (es : List FileEntry)
      → Agrees e content fs es
      → IsCoherent cache fs es
      → IsCoherent (set cache e.blob.sha256 content) fs es
  set-IsCoherent cache e content [] es agrees coherent = tt
  set-IsCoherent cache e content (f ∷ fs) [] agrees coherent = tt
  set-IsCoherent cache e content (f ∷ fs) (e' ∷ es) (agrees, more) (coherent, rest) = (
    (λ c found. ground (
      arith,
      get-set cache e.blob.sha256 e'.blob.sha256 content,
      found,
      eq_iff e.blob.sha256 e'.blob.sha256,
      agrees,
      coherent c,
    )),
    set-IsCoherent cache e content fs es more rest,
  )

  pub open_files-known :
      (cache : Dict Bytes) (e : FileEntry) (es : List FileEntry) (c : Bytes)
      → get cache e.blob.sha256 ≡ some c
      → open_files p fetch content_key cache (e ∷ es)
        ≡ with_file p e c (open_files p fetch content_key cache es)
  unfolding open_files
  open_files-known cache e es c old = ground (arith, old)

  pub open_files-new :
      (cache : Dict Bytes) (e : FileEntry) (es : List FileEntry) (c : Bytes)
      → get cache e.blob.sha256 ≡ none
      → open_blob p content_key e (fetch e.blob.sha256) ≡ built c
      → open_files p fetch content_key cache (e ∷ es)
        ≡ with_file p e c (open_files p fetch content_key (set cache e.blob.sha256 c) es)
  unfolding open_files
  open_files-new cache e es c new opened = ground (arith, new, opened)

  pub open_files-Opens :
      (cache : Dict Bytes) (fs : List ArchiveFile) (es : List FileEntry)
      → Opens fs es
      → Agree fs es
      → IsCoherent cache fs es
      → open_files p fetch content_key cache es ≡ built fs
  unfolding open_files
  open_files-Opens cache [] [] opens agree coherent = refl
  open_files-Opens cache [] (e ∷ es) opens agree coherent = absurd (ground arith)
  open_files-Opens cache (f ∷ fs) [] opens agree coherent = absurd (ground arith)
  open_files-Opens cache (f ∷ fs) (e ∷ es) (path, opened, opens) (agrees, agree) (coherent, rest) =
      elim (Option-cases (get cache e.blob.sha256)) [
        | inl new ↦
            let ih =
              open_files-Opens (set cache e.blob.sha256 f.content) fs es opens agree
                (set-IsCoherent cache e f.content fs es agrees rest) in
            open_files-new cache e es f.content new opened
            ∙ ap (with_file p e f.content) ih
            ∙ ap (λ path. built (record { path = path; content = f.content } ∷ fs)) path
        | inr (c, old) ↦
            let ih = open_files-Opens cache fs es opens agree rest in
            open_files-known cache e es c old
            ∙ ap (with_file p e c) ih
            ∙ ap (λ path. built (record { path = path; content = c } ∷ fs)) path
            ∙ ap (λ content. built (record { path = f.path; content = content } ∷ fs))
                (coherent c old)
      ]
