-- ===== src/Persistence/Plugins.antt =====
-- src/persistence.js: the chain of persistence plugins. A plugin is code outside the program, so it
-- is a record of functions on the store that it keeps; a missing function is `none`.
use yhub.Base.{Option, none, some, List, [], ◌∷◌, if◌then◌else◌}
use yhub.Assets.{AssetId, Asset, is_reference}

pub record Plugin (W : Type 0) : Type 0 where
  pub store : Option (AssetId → Asset → W → Option Asset × W)
  pub retrieve : Option (AssetId → Asset → W → Option Asset)
  pub delete : Option (AssetId → Asset → W → W)

module _ {W : Type 0} where
  unfoldable pub offer : Plugin W → AssetId → Asset → W → Option Asset × W
  offer p id asset w = elim p.store [ none ↦ (none, w) | some f ↦ f id asset w ]

  -- `tryPersistencePluginStore`: what the first plugin that takes the asset gives for it, or the
  -- asset itself.
  unfoldable pub plugin_store : List (Plugin W) → AssetId → Asset → W → Asset × W
  unfolding offer
  plugin_store [] id asset w = (asset, w)
  plugin_store (p ∷ ps) id asset w =
      let (taken, w') = offer p id asset w in
      elim taken [ some r ↦ (r, w') | none ↦ plugin_store ps id asset w' ]

  unfoldable pub ask : Plugin W → AssetId → Asset → W → Option Asset
  ask p id asset w = elim p.retrieve [ none ↦ none | some f ↦ f id asset w ]

  unfoldable pub ask_all : List (Plugin W) → AssetId → Asset → W → Option Asset
  unfolding ask
  ask_all [] id asset w = none
  ask_all (p ∷ ps) id asset w = elim (ask p id asset w) [
    | some r ↦ some r
    | none ↦ ask_all ps id asset w
  ]

  -- `tryPersistencePluginRetrieve`: null where no plugin has the asset.
  unfoldable pub plugin_retrieve : List (Plugin W) → AssetId → Asset → W → Option Asset
  unfolding ask_all is_reference
  plugin_retrieve ps id asset w = if is_reference asset then ask_all ps id asset w else some asset

  unfoldable pub discard : Plugin W → AssetId → Asset → W → W
  discard p id asset w = elim p.delete [ none ↦ w | some f ↦ f id asset w ]

  unfoldable pub discard_all : List (Plugin W) → AssetId → Asset → W → W
  unfolding discard
  discard_all [] id asset w = w
  discard_all (p ∷ ps) id asset w = discard_all ps id asset (discard p id asset w)

  -- `tryPersistencePluginDelete`: every plugin is asked; an asset that was not fetched is inline.
  unfoldable pub plugin_delete : List (Plugin W) → AssetId → Option Asset → W → W
  unfolding discard_all is_reference
  plugin_delete ps id none w = w
  plugin_delete ps id (some asset) w = if is_reference asset then discard_all ps id asset w else w
