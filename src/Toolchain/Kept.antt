-- ===== src/Toolchain/Kept.antt =====
-- What becomes of `CT_CLANG`.

use coretrace_runtime_analyz.Base.{
  Bool, Bool-cases, Bytes, List, [], any, arith, codes, false, if◌then◌else◌, inl, inr, is_empty,
  not, refl, some, true, ◌&&◌, ◌∙◌, ◌∷◌, ◌≡◌, ◌≢◌, ◌⊎◌,
}
use coretrace_runtime_analyz.World.{World}
use coretrace_runtime_analyz.Args.Artifact.{join_path}
use coretrace_runtime_analyz.Toolchain.{
  ct_clang, has_headers, is_configured, lib_beside, use_shipped_clang_headers, use_version,
}

nonempty : (text : Bytes) → is_empty text ≡ false → text ≢ []
nonempty [] h = absurd (cc)
nonempty (c ∷ text) h = cc

module _ (w : World) where
  use_version_lem :
      (executable : Bytes) (versions : List Bytes) (s : w.State)
      → use_version w executable versions s
        ≡ (if any (has_headers w s) versions then w.setenv ct_clang executable s else (false, s))
  unfolding use_version
  use_version_lem executable [] s = refl
  use_version_lem executable (v ∷ versions) s = elim (Bool-cases (has_headers w s v)) [
    | inl e ↦ rw (use_version, e) refl
    | inr e ↦ rw (use_version, e) (use_version_lem executable versions s)
  ]

  -- The whole function as one test.
  use_shipped_clang_headers_lem :
      (executable : Bytes) (s : w.State)
      → use_shipped_clang_headers w executable s ≡ (
          if (not (is_empty executable) && not (is_configured (w.getenv ct_clang s)))
            && any
                (has_headers w s)
                (w.list_directory (join_path (lib_beside w executable) (codes "clang")) s)
          then w.setenv ct_clang executable s
          else (false, s))
  unfolding use_shipped_clang_headers
  use_shipped_clang_headers_lem executable s = ground (
    arith,
    use_version_lem executable
        (w.list_directory (join_path (lib_beside w executable) (codes "clang")) s) s,
  )

  shipped : Bytes → w.State → Bool
  shipped executable s =
      (not (is_empty executable) && not (is_configured (w.getenv ct_clang s)))
      && any (has_headers w s)
          (w.list_directory (join_path (lib_beside w executable) (codes "clang")) s)

  shipped_cases :
      (executable : Bytes) (s : w.State)
      → ((shipped executable s ≡ true)
          × (use_shipped_clang_headers w executable s ≡ w.setenv ct_clang executable s))
        ⊎ ((shipped executable s ≡ false) × (use_shipped_clang_headers w executable s ≡ (false, s)))
  unfolding shipped
  shipped_cases executable s = elim (Bool-cases (shipped executable s)) [
    | inl e ↦ inl (e, use_shipped_clang_headers_lem executable s ∙ rw e refl)
    | inr e ↦ inr (e, use_shipped_clang_headers_lem executable s ∙ rw e refl)
  ]

  configured_kept :
      (executable : Bytes) (s : w.State)
      → is_configured (w.getenv ct_clang s) ≡ true
      → use_shipped_clang_headers w executable s ≡ (false, s)
  unfolding use_shipped_clang_headers
  configured_kept executable s h = ground (arith, h)

  -- Where `getenv` gives what `setenv` has set: a `CT_CLANG` that the user has set to something is
  -- left as it is, and nothing else is done. Otherwise, where the function tells that it has pointed
  -- the compiler at the shipped headers, `CT_CLANG` is the program's own path, which is known, some
  -- version beside the program has its headers, and a second call changes nothing.
  pub use_shipped_clang_headers-getenv :
      ((name value : Bytes) (s : w.State)
        → (w.setenv name value s).0 ≡ true
        → w.getenv name (w.setenv name value s).1 ≡ some value)
      → (executable : Bytes) (s : w.State)
      → let (used, s') = use_shipped_clang_headers w executable s in
        (is_configured (w.getenv ct_clang s) ≡ true → (used ≡ false) × (s' ≡ s))
        × (used ≡ true
            → (w.getenv ct_clang s' ≡ some executable)
              × (executable ≢ [])
              × (any
                    (has_headers w s)
                    (w.list_directory (join_path (lib_beside w executable) (codes "clang")) s)
                  ≡ true)
              × (use_shipped_clang_headers w executable s' ≡ (false, s')))
  unfolding shipped
  use_shipped_clang_headers-getenv law executable s = elim (shipped_cases executable s) [
    | inr (e, same) ↦ rw same ((λ _. (refl, refl)), λ h. absurd (cc))
    | inl (e, set) ↦
        let r = w.setenv ct_clang executable s in
        let free : is_configured (w.getenv ct_clang s) ≡ false = ground (arith, e) in
        let known : is_empty executable ≡ false = ground (arith, e) in
        rw set (
          (λ h. absurd (cc)),
          λ used.
              let got = law ct_clang executable s used in
              (
                got,
                nonempty executable known,
                ground (arith, e),
                configured_kept executable r.1 (rw got (ground (arith, known))),
              ),
        )
  ]
