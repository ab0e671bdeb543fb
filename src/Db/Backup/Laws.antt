-- ===== src/Db/Backup/Laws.antt =====
-- A backup restores the chats and messages, and holds no API key.
use llm_router_ui.Prelude.{
  Option, none, some, List, [], ◌∷◌, ◌≡◌, refl, subst, map, All, or_else, Option-cases, inl, inr,
  arith,
}
use llm_router_ui.Text.{Text}
use llm_router_ui.Types.{Message, Chat, Provider}
use llm_router_ui.Types.Patch.{SettingsPatch}
use llm_router_ui.Idb.{ObjectStore}
use llm_router_ui.Idb.Laws.{get-put_all_values, or_keep}
use llm_router_ui.Db.{Db, IsKeyed, settings_key}
use llm_router_ui.Db.Backup.{
  Json, imported, without_key, safe_settings, backup_of, export_data, import_data, put_fields,
}

abbrev HasNoKey : Provider → Type 0
HasNoKey p = p.api_key ≡ []

map-without_key : (ps : List Provider) → All HasNoKey (map without_key ps)
unfolding without_key
map-without_key [] = tt
map-without_key (p ∷ ps) = (refl, map-without_key ps)

-- The exported settings are the stored ones but for the providers, which hold no key.
abbrev pub Redacts : Option SettingsPatch → Option SettingsPatch → Type 0
Redacts none none = Unit
Redacts (some s) (some t) =
    All HasNoKey (or_else t.providers []) × (t ≡ record s { providers = t.providers })
Redacts _ _ = ⊥

safe_settings-Redacts : (s t : SettingsPatch) → safe_settings s ≡ some t → Redacts (some s) (some t)
unfolding safe_settings
safe_settings-Redacts s t e = elim (Option-cases s.providers) [
  | inl missing ↦ absurd (ground arith)
  | inr (ps, found) ↦
      let q : record s { providers = some (map without_key ps) } ≡ t = ground arith in
      subst
        (λ z. All HasNoKey (or_else z.providers []) × (z ≡ record s { providers = z.providers })) q
        (map-without_key ps, refl)
]

module _ (idb : ObjectStore) (json : Json) where
  open idb use {get, entries}
  open json use {Document, stringify, parse-stringify}

  -- A backup holds the stored chats and messages, and settings without API keys.
  pub export-Redacts :
      (db : Db idb) (document : Document)
      → export_data idb json db ≡ some document
      → (settings : Option SettingsPatch) × (document ≡ stringify (backup_of idb json db settings))
        × Redacts (get db.settings settings_key) settings
  unfolding export_data
  export-Redacts db document e = elim (Option-cases (get db.settings settings_key)) [
    | inl missing ↦ (none, ground arith, rw missing tt)
    | inr (s, found) ↦ elim (Option-cases (safe_settings s)) [
      | inl broken ↦ absurd (ground arith)
      | inr (t, safe) ↦ (some t, ground arith, rw found (safe_settings-Redacts s t safe))
    ]
  ]

  -- Importing a backup of one database into another keeps or overwrites each record: a chat or
  -- message of the backup stands as it was exported, any other as it was, and the settings too.
  pub import-export :
      (source target : Db idb) (document : Document)
      → IsKeyed idb source
      → export_data idb json source ≡ some document
      → (result : Db idb) × (import_data idb json target document ≡ imported result)
        × ((k : Text) → get result.chats k ≡ or_keep (get source.chats k) (get target.chats k))
        × ((k : Text)
            → get result.messages k ≡ or_keep (get source.messages k) (get target.messages k))
        × (result.settings ≡ target.settings)
  unfolding export_data import_data
  import-export source target document keyed e =
      let (settings, written, _) = export-Redacts source document e in
      let chats = map (λ (c : Text × Chat). c.1) (entries source.chats) in
      let messages = map (λ (m : Text × Message). m.1) (entries source.messages) in
      (
        put_fields idb json target (some chats) (some messages),
        rw (written, parse-stringify (backup_of idb json source settings), import_data),
        λ k. get-put_all_values idb (λ c. c.id) source.chats keyed.chats target.chats k,
        λ k. get-put_all_values idb (λ m. m.id) source.messages keyed.messages target.messages k,
        refl,
      )
