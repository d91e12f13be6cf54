-- ===== src/Server/Service/Locks.antt =====
-- server/src/service/mod.rs: aliases, and how collections and items are locked and unlocked.
pub mod NoPrompt
use oo.Prelude.{
  ℕ, Bool, true, false, not, Option, none, some, List, [], ◌∷◌, ◌++◌, drop, take, length,
  if◌then◌else◌, Text, codes, bytes_eq, find, ◌==◌,
}
use oo.HashMap.{get, insert, remove}
use oo.Outcome.{Result, ok, err, panic}
use oo.Exec.{Step, pure, lift, gets, raise, modify, ◌>>=◌, ◌>>◌}
use oo.Os.{Os, WholeFiles}
use oo.Secret.{Secret}
use oo.Crypto.{Primitives}
use oo.Item.{UnlockedItem, Codec}
use oo.Keyring.{Keyring}
use oo.File.{FileItem, FileKeyring, locked_keyring, unlocked_keyring, is_locked_item}
use oo.Server.{ObjectPath, ServiceError, is_locked, no_such_object, Bus}
use oo.Server.Item.{Item, unwrap}
use oo.Server.Item
use oo.Server.Collection.{Collection, collection_is_locked, item_from_path}
use oo.Server.Collection
use oo.Server.Service.{
  Service, Collections, Prompt, for_unlock, unlock_objects, in_world, at_collection,
}
use oo.Server.Service.Creation.{no_path, new_prompt, serve_prompt}

abbrev pub login_alias : Text
login_alias = codes "login"

abbrev pub default_collection : Text
default_collection = codes "default"

-- The login collection is the default one.
unfoldable pub alias_to_find : Text → Text
unfolding bytes_eq
alias_to_find name = if bytes_eq name login_alias then default_collection else name

unfoldable pub with_alias : Text → Collections → Option ObjectPath
with_alias alias [] = none
with_alias alias ((path, c) ∷ collections) =
    if bytes_eq c.alias alias then some path else with_alias alias collections

-- `strip_prefix`
unfoldable pub strip_prefix : Text → Text → Option Text
strip_prefix prefix s =
    if bytes_eq (take (length prefix) s) prefix then some (drop (length prefix) s) else none

abbrev pub aliases_prefix : ObjectPath
aliases_prefix = codes "/org/freedesktop/secrets/aliases/"

unfoldable pub resolve_alias : Collections → ObjectPath → Option ObjectPath
resolve_alias collections path = elim (strip_prefix aliases_prefix path) [
  | none ↦ none
  | some alias ↦ with_alias (alias_to_find alias) collections
]

unfoldable pub collection_from_path : Collections → ObjectPath → Option (ObjectPath × Collection)
collection_from_path collections path = elim (get path collections) [
  | some c ↦ some (path, c)
  | none ↦ elim (resolve_alias collections path) [
    | none ↦ none
    | some resolved ↦ elim (get resolved collections) [ none ↦ none | some c ↦ some (resolved, c) ]
  ]
]

module _ {W : Type 0} where
  unfoldable pub read_alias : Text → Step ServiceError (Service × W) ObjectPath
  read_alias name s = (
    elim (with_alias (alias_to_find name) s.0.collections) [
      | none ↦ ok no_path
      | some path ↦ ok path
    ],
    s,
  )

  unfoldable pub set_alias : Text → ObjectPath → Step ServiceError (Service × W) (Unit {0})
  set_alias name path = do
    found ← at_collection path (modify (λ s. (Collection.set_alias name s.0, s.1)))
    elim found [ none ↦ raise no_such_object | some _ ↦ pure tt ]

-- `rsplit_once('/')`, of which the first part.
unfoldable pub parent_path : ObjectPath → Option ObjectPath
parent_path [] = none
parent_path (b ∷ bs) =
    let rest = parent_path bs in
    elim rest [ some parent ↦ some (b ∷ parent) | none ↦ if b == b'/' then some [] else none ]

unfoldable pub first_collection : Collections → List ObjectPath → Option (ObjectPath × Collection)
first_collection collections [] = none
first_collection collections (object ∷ objects) =
    let rest = first_collection collections objects in
    elim (collection_from_path collections object) [ some c ↦ some c | none ↦ rest ]

-- The collection of the objects: one of them, or the parent of the first.
unfoldable pub extract_collection_from_objects :
    Collections → List ObjectPath → Option (ObjectPath × Collection)
extract_collection_from_objects collections [] = none
extract_collection_from_objects collections (object ∷ objects) =
    elim (first_collection collections (object ∷ objects)) [
      | some c ↦ some c
      | none ↦ elim (parent_path object) [
        | none ↦ none
        | some parent ↦ collection_from_path collections parent
      ]
    ]

-- The label of that collection; a parent that is no path of its own is none.
unfoldable pub extract_label_from_objects : Collections → List ObjectPath → Text
extract_label_from_objects collections objects =
    elim (extract_collection_from_objects collections objects) [
      | none ↦ []
      | some found ↦ found.1.label
    ]

-- The collection with the given path, or the first that has an item with it.
unfoldable pub find_object :
    ObjectPath → Collections → Option (ObjectPath × (Collection × Option Item))
find_object object [] = none
find_object object ((path, c) ∷ collections) =
    let rest = find_object object collections in
    if bytes_eq object path
    then some (path, (c, none))
    else (elim (item_from_path object c.items) [ some i ↦ some (path, (c, some i)) | none ↦ rest ])

unfoldable pub replace_item : ObjectPath → Item → List Item → List Item
replace_item path i [] = []
replace_item path i (j ∷ items) =
    if bytes_eq j.path path then i ∷ items else j ∷ replace_item path i items

unfoldable pub same : Bool → Bool → Bool
same true b = b
same false b = not b

-- An object added to those without a prompt, or to those with one.
unfoldable pub add_turned :
    Option (ObjectPath × Bool)
    → List ObjectPath × List ObjectPath
    → List ObjectPath × List ObjectPath
add_turned none rest = rest
add_turned (some (path, true)) rest = (path ∷ rest.0, rest.1)
add_turned (some (path, false)) rest = (rest.0, path ∷ rest.1)

module _ {W : Type 0} ⦃os : Os W⦄ ⦃p : Primitives⦄ ⦃codec : Codec UnlockedItem⦄ ⦃bus : Bus W⦄ where
  -- An item turned under the keyring of its collection, if that is open.
  unfoldable pub turn_item : Bool → Item → Step ServiceError (Collection × W) Bool
  turn_item locked i s = elim s.0.keyring [
    | none ↦ (ok false, s)
    | some (locked_keyring l) ↦ (ok false, s)
    | some (unlocked_keyring u) ↦
        let r = Item.set_locked locked (i, (u, s.1)) in
        (
          elim r.0 [ ok _ ↦ ok true | err e ↦ err e | panic ↦ panic ],
          (
            record s.0 {
              items = replace_item i.path r.1.0 s.0.items;
              keyring = some (unlocked_keyring r.1.1.0);
            },
            r.1.1.1,
          ),
        )
  ]

module _ {W : Type 0} ⦃os : Os W⦄ ⦃p : Primitives⦄ ⦃codec : Codec UnlockedItem⦄ ⦃bus : Bus W⦄
    ⦃kc : Codec Keyring⦄ where
  unfoldable pub turn_collection :
      Bool → Option Secret → ObjectPath → Step ServiceError (Service × W) (Option (Unit {0}))
  turn_collection locked secret path = at_collection path (Collection.set_locked locked secret)

  -- An item whose keyring was not open after all.
  unfoldable pub after_turn : Bool → Option Bool → Step ServiceError (Service × W) Bool
  after_turn locked (some true) = pure true
  after_turn locked other = if locked then raise is_locked else pure false

  -- Whether an object that was found needs no prompt.
  unfoldable pub turn_found :
      Bool → ObjectPath → Collection → Option Item → Step ServiceError (Service × W) Bool
  turn_found locked path c none =
      if same (collection_is_locked c) locked
      then pure true
      else if locked
      then (do turned ← turn_collection true none path; pure true)
      else pure false
  turn_found locked path c (some i) =
      if collection_is_locked c then (if locked then raise is_locked else pure false) else (do
        inner ← lift (unwrap i.inner)
        if same locked (is_locked_item inner)
            then pure true
            else (do turned ← at_collection path (turn_item locked i); after_turn locked turned))

  unfoldable pub turn_if_found :
      Bool
      → ObjectPath
      → Option (ObjectPath × (Collection × Option Item))
      → Step ServiceError (Service × W) (Option (ObjectPath × Bool))
  turn_if_found locked resolved none = pure none
  turn_if_found locked resolved (some (path, (c, i))) = do
    free ← turn_found locked path c i
    pure (some (resolved, free))

  -- One object: its resolved path, and whether it needs no prompt; none if there is no such object.
  unfoldable pub turn_object :
      Bool → ObjectPath → Step ServiceError (Service × W) (Option (ObjectPath × Bool))
  turn_object locked object = do
    collections ← gets (λ s. s.0.collections)
    let resolved : ObjectPath = elim (resolve_alias collections object) [
      | none ↦ object
      | some path ↦ path
    ]
    turn_if_found locked resolved (find_object resolved collections)

  -- The objects without a prompt, and those with one.
  unfoldable pub set_locked :
      Bool → List ObjectPath → Step ServiceError (Service × W) (List ObjectPath × List ObjectPath)
  set_locked locked [] = pure ([], [])
  set_locked locked (object ∷ objects) = do
    turned ← turn_object locked object
    rest ← set_locked locked objects
    pure (add_turned turned rest)

  -- The assertion, which debug builds make, is a theorem below.
  unfoldable pub lock :
      List ObjectPath → Step ServiceError (Service × W) (List ObjectPath × ObjectPath)
  lock objects = do turned ← set_locked true objects; pure (turned.0, no_path)

  unfoldable pub unlock :
      List ObjectPath → Step ServiceError (Service × W) (List ObjectPath × ObjectPath)
  unlock objects = do
    turned ← set_locked false objects
    elim turned.1 [
      | [] ↦ pure (turned.0, no_path)
      | object ∷ others ↦ do
        collections ← gets (λ s. s.0.collections)
        prompt ←
            new_prompt for_unlock (extract_label_from_objects collections turned.1)
              (elim (extract_collection_from_objects collections turned.1) [
                | none ↦ none
                | some found ↦ some found.0
              ])
              (λ path. unlock_objects turned.1)
        path ← serve_prompt prompt
        pure (turned.0, path)
    ]
