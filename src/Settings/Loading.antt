-- ===== src/Settings/Loading.antt =====
-- What loading a document keeps, given what apply_scalar keeps.
use pqproxy.Base.{
  ◌≤◌, ◌≡◌, refl, List, [], ◌∷◌, ◌++◌, Option, none, some, Str, codes, length, arith,
}
use pqproxy.Settings.{Settings, defaults, Bundle, bundle_init, bundle_strdup, owned_max}
use pqproxy.Settings.Apply.{apply_scalar}
use pqproxy.Settings.Setters.{Applied, refused, applied, with_cfg}
use pqproxy.Settings.Load.{
  Document, lookup, join_groups_sequence, join_from, groups_key, apply_paths, load_groups,
  load_from_ctx, g_paths, Fed, not_created, not_consumed, known, load_yaml_buf, load_yaml,
}
use pqproxy.Settings.Rules.{Sound, SoundApplied}
use pqproxy.Settings.Ports.{bundle_strdup-le}
use pqproxy.Base.Each.{AllOf}

module _ (Q : Settings → Type 0)
    (grouped : (c : Settings) (s : Str) → Q c → Q (record c { backend_groups = some s })) where
  module _ (doc : Document) where
    joined : (b : Bundle) → Sound Q b → AllOf (Sound Q) (join_groups_sequence doc b)
    unfolding join_groups_sequence
    joined b (q, room) = go (join_from doc [] 0 (doc.child_count groups_key))
      where
        copied :
            (s : Str) (o : Option Bundle)
            → AllOf (λ (b' : Bundle). length b'.owned ≤ owned_max) o
            → AllOf (Sound Q) (elim o as (λ x. Option Bundle) [
              | none ↦ none
              | some b' ↦ some (with_cfg b' (record b.cfg { backend_groups = some s }))
            ])
        copied s none h = tt
        copied s (some b') h = (grouped b.cfg s q, h)

        go :
            (o : Option Str)
            → AllOf (Sound Q) (elim o as (λ x. Option Bundle) [
              | none ↦ none
              | some [] ↦ some b
              | some (c ∷ buf) ↦ elim (bundle_strdup b (c ∷ buf)) as (λ x. Option Bundle) [
                | none ↦ none
                | some b' ↦ some (with_cfg b' (record b.cfg { backend_groups = some (c ∷ buf) }))
              ]
            ])
        go none = tt
        go (some []) = (q, room)
        go (some (c ∷ buf)) =
            copied (c ∷ buf) (bundle_strdup b (c ∷ buf)) (bundle_strdup-le b (c ∷ buf))

    groups-sound : (b : Bundle) → Sound Q b → SoundApplied Q (load_groups doc b)
    unfolding load_groups
    groups-sound b sound = go b.cfg.backend_groups
      where
        found :
            (o : Option Bundle)
            → AllOf (Sound Q) o
            → SoundApplied Q (elim o as (λ x. Applied) [
              | none ↦ refused (codes "backend.groups sequence too long")
              | some b' ↦ applied b'
            ])
        found none h = tt
        found (some b') h = h

        go :
            (o : Option Str)
            → SoundApplied Q (elim o as (λ x. Applied) [
              | some s ↦ applied b
              | none ↦ elim (join_groups_sequence doc b) as (λ x. Applied) [
                | none ↦ refused (codes "backend.groups sequence too long")
                | some b' ↦ applied b'
              ]
            ])
        go none = found (join_groups_sequence doc b) (joined b sound)
        go (some s) = sound

    module _
        (step : (b : Bundle) (key val : Str)
          → lookup doc key ≡ some val
          → Sound Q b
          → SoundApplied Q (apply_scalar b key val)) where
      paths-sound :
          (b : Bundle) (paths : List Str) → Sound Q b → SoundApplied Q (apply_paths doc b paths)
      unfolding apply_paths
      paths-sound b [] sound = sound
      paths-sound b (path ∷ paths) sound =
          go (λ b' h. paths-sound b' paths h) (lookup doc path) refl
        where
          next :
              ((b' : Bundle) → Sound Q b' → SoundApplied Q (apply_paths doc b' paths))
              → (r : Applied) → SoundApplied Q r
              → SoundApplied Q (elim r as (λ x. Applied) [
                | refused msg ↦ refused (path ++ codes ": " ++ msg)
                | applied b' ↦ apply_paths doc b' paths
              ])
          next more (refused msg) h = tt
          next more (applied b') h = more b' h

          go :
              ((b' : Bundle) → Sound Q b' → SoundApplied Q (apply_paths doc b' paths))
              → (o : Option Str) → lookup doc path ≡ o
              → SoundApplied Q (elim o as (λ x. Applied) [
                | none ↦ apply_paths doc b paths
                | some val ↦ elim (apply_scalar b path val) as (λ x. Applied) [
                  | refused msg ↦ refused (path ++ codes ": " ++ msg)
                  | applied b' ↦ apply_paths doc b' paths
                ]
              ])
          go more none e = more b sound
          go more (some val) e = next more (apply_scalar b path val) (step b path val e sound)

      pub load_from_ctx-sound : (b : Bundle) → Sound Q b → SoundApplied Q (load_from_ctx doc b)
      unfolding load_from_ctx
      load_from_ctx-sound b sound = go doc.error
        where
          then_groups :
              (r : Applied)
              → SoundApplied Q r
              → SoundApplied Q (elim r as (λ x. Applied) [
                | refused msg ↦ refused msg
                | applied b' ↦ load_groups doc b'
              ])
          then_groups (refused msg) h = tt
          then_groups (applied b') h = groups-sound b' h

          go :
              (o : Option Str)
              → SoundApplied Q (elim o as (λ x. Applied) [
                | some msg ↦ refused (codes "yaml parse: " ++ msg)
                | none ↦ elim (apply_paths doc b g_paths) as (λ x. Applied) [
                  | refused msg ↦ refused msg
                  | applied b' ↦ load_groups doc b'
                ]
              ])
          go none = then_groups (apply_paths doc b g_paths) (paths-sound b g_paths sound)
          go (some msg) = tt

  fresh : Q defaults → Sound Q bundle_init
  unfolding bundle_init
  fresh start = (start, omega arith)

  module _ (yaml : Str → Fed) (start : Q defaults)
      (step : (doc : Document) (s : Str)
        → yaml s ≡ known doc
        → (b : Bundle) (key val : Str) → lookup doc key ≡ some val
        → Sound Q b
        → SoundApplied Q (apply_scalar b key val)) where
    fed : (s : Str) (f : Fed) → yaml s ≡ f → SoundApplied Q (load_yaml_buf f)
    unfolding load_yaml_buf
    fed s not_created e = tt
    fed s not_consumed e = tt
    fed s (known doc) e = load_from_ctx-sound doc (step doc s e) bundle_init (fresh start)

    pub load_yaml-sound :
        (files : Str → Option Str) (path : Str) → SoundApplied Q (load_yaml files yaml path)
    unfolding load_yaml
    load_yaml-sound files path = go (files path)
      where
        go :
            (o : Option Str)
            → SoundApplied Q (elim o as (λ x. Applied) [
              | none ↦ refused (codes "cannot open " ++ path)
              | some [] ↦ applied bundle_init
              | some (c ∷ buf) ↦ load_yaml_buf (yaml (c ∷ buf))
            ])
        go none = tt
        go (some []) = fresh start
        go (some (c ∷ buf)) = fed (c ∷ buf) (yaml (c ∷ buf)) refl
