-- ===== src/Actions/Quoted.antt =====
-- crates/sysknife-daemon/src/actions/containers.rs: the quotes in the script of a container's creation.
use Prim.Native.String.{◌++◌ as append}
use Prim.Native.String.append as append_laws
use Prim.Native.Char.{code}
use lacs.Prelude.{ℕ, String, ◌≡◌, ◌≢◌, refl, ap, subst, sym, ◌∙◌, List, [], ◌∷◌, ◌++◌, All, arith}
use lacs.Prelude.Text.{codes}
use lacs.Executor.{command, ok}
use lacs.Validate.{split, validated_safe_arg}
use lacs.Validate.SafeArg.{Harmless, IsSafe, validated_safe_arg-IsSafe}
use lacs.Actions.{concat}
use lacs.Actions.Containers.{create_container}

codes-append : (s t : String) → codes (append s t) ≡ codes s ++ codes t
codes-append String.[] t = ap codes (append_laws.nil t)
codes-append (String.◌∷◌ c s) t =
    ap codes (append_laws.cons c s t) ∙ ap (λ cs. code c ∷ cs) (codes-append s t)

-- a text without the separator stands before it as it is
split-append : (d : ℕ) (x y : List ℕ) → All (λ c. c ≢ d) x → split d (x ++ d ∷ y) ≡ x ∷ split d y
split-append d [] y h = ground arith
split-append d (c ∷ x) y h = rw (split-append d x y h.1, split) (ground arith)

no_quote : (x : List ℕ) → All Harmless x → All (λ c. c ≢ b'\'') x
no_quote [] h = tt
no_quote (c ∷ x) h = (h.0.2, no_quote x h.1)

harmless :
    (s param accepted : String)
    → validated_safe_arg s param ≡ ok accepted
    → All Harmless (codes accepted)
harmless s param accepted h =
    let (same, safe) = validated_safe_arg-IsSafe s param accepted h in
    (subst IsSafe (sym same) safe).harmless

abbrev script : String → String → String
script name image = concat ("podman create --name '" ∷ name ∷ "' '" ∷ image ∷ "'" ∷ [])

abbrev quote : ℕ
quote = b'\''

codes-script :
    (name image : String)
    → codes (script name image)
      ≡ codes "podman create --name "
        ++ quote ∷ (codes name ++ quote ∷ (codes " " ++ quote ∷ (codes image ++ quote ∷ [])))
codes-script name image = simp (codes-append)

script_lem :
    (name image : String)
    → All (λ c. c ≢ b'\'') (codes name)
    → All (λ c. c ≢ b'\'') (codes image)
    → split b'\'' (codes (script name image))
      ≡ codes "podman create --name " ∷ codes name ∷ codes " " ∷ codes image ∷ [] ∷ []
script_lem name image hn hi =
    ap (split b'\'') (codes-script name image)
    ∙ rw (split-append quote (codes name) (codes " " ++ quote ∷ (codes image ++ quote ∷ [])) hn)
        (rw (split-append quote (codes image) [] hi) refl)

-- Where the name and the image of a container were accepted, the shell script that creates it has
-- each of them alone between two quotes, and has no other quotes than these four.
pub create_container_quoted :
    (username n name i image : String)
    → validated_safe_arg n "name" ≡ ok name
    → validated_safe_arg i "image" ≡ ok image
    → (script : String) × ((create_container username name image).mechanism
        ≡ command "sudo" ("runuser" ∷ "-l" ∷ username ∷ "-c" ∷ script ∷ []))
      × (split b'\'' (codes script)
          ≡ codes "podman create --name " ∷ codes name ∷ codes " " ∷ codes image ∷ [] ∷ [])
create_container_quoted username n name i image accepted_name accepted_image = (
  script name image,
  refl,
  script_lem name image (no_quote (codes name) (harmless n "name" name accepted_name))
      (no_quote (codes image) (harmless i "image" image accepted_image)),
)
