-- ===== src/ShareLinks/Pages.antt =====
-- What a visitor of a share link gets, and the texts that name a shared resource
-- (app/server/monitor/services/share_link_service.py). What the recordings service and the file system
-- answer are parameters.
use rpi_home_monitor.Base.{
  ℕ, ◌+◌, String, Bool, true, false, ◌&&◌, ◌||◌, not, Option, none, some, List, [], ◌∷◌, ◌⊎◌, inl,
  inr, Text, codes, text_eq, is_digit, reverse, leb, ◌==◌, str_eq, if◌then◌else◌, is_empty,
}
use rpi_home_monitor.ShareLinks.Visitors.{starts_with}
use rpi_home_monitor.ShareLinks.{
  ShareLink, Refusal, Visitor, link_failure, resource_failure, invalid_resource_type,
  invalid_resource_id, camera_not_found, invalid_file_type, invalid_path, authorise_link,
  record_access,
}

-- `_CAMERA_ID_RE`, with the characters that were read: `$` also stands before a last line feed.
abbrev pub is_id_char : ℕ → Bool
is_id_char c =
    (is_digit c || (leb 65 c && leb c 90)) || ((leb 97 c && leb c 122) || (c == 95 || c == 45))

unfoldable pub id_from : ℕ → Text → Bool
id_from n [] = leb 1 n && leb n 64
id_from n (c ∷ s) =
    let rest = id_from (n + 1) s in
    if is_id_char c then rest else (c == 10 && is_empty s) && (leb 1 n && leb n 64)

abbrev pub is_camera_id : Text → Bool
is_camera_id s = id_from 0 s

-- `_DATE_RE`, where `d` stands for a digit.
unfoldable pub has_shape : Text → Text → Bool
has_shape [] [] = true
has_shape [] (c ∷ s) = c == 10 && is_empty s
has_shape (p ∷ shape) [] = false
has_shape (p ∷ shape) (c ∷ s) = (if p == 100 then is_digit c else p == c) && has_shape shape s

abbrev pub is_date : Text → Bool
is_date s = has_shape (codes "dddd-dd-dd") s

abbrev pub ends_with : Text → Text → Bool
ends_with suffix s = starts_with (reverse suffix) (reverse s)

abbrev pub put_first : ℕ → List Text → List Text
put_first c [] = (c ∷ []) ∷ []
put_first c (part ∷ parts) = (c ∷ part) ∷ parts

unfoldable pub split_slash : Text → List Text
split_slash [] = [] ∷ []
split_slash (c ∷ s) = let rest = split_slash s in if c == 47 then [] ∷ rest else put_first c rest

abbrev pub clip_parts : List Text → Option (Text × Text × Text)
clip_parts (camera_id ∷ clip_date ∷ filename ∷ []) =
    if is_camera_id camera_id && (is_date clip_date && ends_with (codes ".mp4") filename)
    then some (camera_id, clip_date, filename)
    else none
clip_parts parts = none

unfoldable pub clip_resource_parts : Text → Option (Text × Text × Text)
clip_resource_parts resource_id = clip_parts (split_slash resource_id)

pub record Camera : Type 0 where
  pub id : Text
  pub status : String

unfoldable pub get_camera : Text → List Camera → Option Camera
get_camera k [] = none
get_camera k (camera ∷ cameras) = if text_eq camera.id k then some camera else get_camera k cameras

-- What a page shows: a clip, or a camera, or a file of a camera.
pub data Page : Type 0 where
  clip : Text → Text → Text → Page
  live : Text → Page
  live_file : Text → Text → Page

-- The recordings, the cameras and the live files behind the links.
pub record Site : Type 0 where
  pub resolve_clip_path : Text → Text → Text → Bool
  pub cameras : List Camera
  pub has_playlist : Text → Bool
  pub is_inside : Text → Text → Bool
  pub is_file : Text → Text → Bool

-- What follows `_authorise_link`: the resource, and for a page the record of the access.
abbrev pub answered :
    Bool → ℕ → ShareLink → List ShareLink → Refusal ⊎ Page → (Refusal ⊎ Page) × List ShareLink
answered recorded now link links (inl refusal) = (inl refusal, links)
answered recorded now link links (inr page) =
    (inr page, if recorded then record_access link now links else links)

abbrev pub shown :
    Bool
    → ℕ
    → (Text → Refusal ⊎ Page)
    → Option ShareLink × List ShareLink
    → (Refusal ⊎ Page) × List ShareLink
shown recorded now resolve (none, links) = (inl link_failure, links)
shown recorded now resolve (some link, links) =
    answered recorded now link links (resolve link.resource_id)

module _ (site : Site) where
  abbrev pub clip_found : Option (Text × Text × Text) → Refusal ⊎ Page
  clip_found none = inl invalid_resource_id
  clip_found (some (camera_id, clip_date, filename)) =
      if site.resolve_clip_path camera_id clip_date filename
      then inr (clip camera_id clip_date filename)
      else inl resource_failure

  -- `_resolve_clip_resource`
  unfoldable pub resolve_clip_resource : Text → Refusal ⊎ Page
  resolve_clip_resource resource_id = clip_found (clip_resource_parts resource_id)

  abbrev pub camera_found : Bool → Text → Option Camera → Refusal ⊎ Page
  camera_found require_playlist camera_id none = inl resource_failure
  camera_found require_playlist camera_id (some camera) =
      if not (str_eq camera.status "online")
      then inl resource_failure
      else if require_playlist && not (site.has_playlist camera_id)
      then inl resource_failure
      else inr (live camera_id)

  -- `_resolve_camera_resource`
  unfoldable pub resolve_camera_resource : Bool → Text → Refusal ⊎ Page
  resolve_camera_resource require_playlist camera_id =
      if is_camera_id camera_id
      then camera_found require_playlist camera_id (get_camera camera_id site.cameras)
      else inl invalid_resource_id

  abbrev pub checked_clip : Bool → Text → Option (Text × Text × Text) → Option Refusal
  checked_clip require_available resource_id none = some invalid_resource_id
  checked_clip require_available resource_id (some parts) =
      if require_available
      then elim (resolve_clip_resource resource_id) [ inl refusal ↦ some refusal | inr page ↦ none ]
      else none

  -- `_validate_resource_reference`: what it refuses with.
  unfoldable pub validate_resource_reference : String → Text → Bool → Option Refusal
  validate_resource_reference resource_type resource_id require_available =
      if str_eq resource_type "camera"
      then (if is_camera_id resource_id
          then elim (get_camera resource_id site.cameras) [
            | none ↦ some camera_not_found
            | some camera ↦ none
          ]
          else some invalid_resource_id)
      else if str_eq resource_type "clip"
      then checked_clip require_available resource_id (clip_resource_parts resource_id)
      else some invalid_resource_type

  -- A file below the directory of the camera: `is_inside` tells whether its resolved path stays below
  -- the directory of the live files.
  abbrev pub file_of : Text → Refusal ⊎ Page → Refusal ⊎ Page
  file_of filename (inl refusal) = inl refusal
  file_of filename (inr (live camera_id)) =
      if not (
        ends_with (codes ".m3u8") filename
        || (ends_with (codes ".ts") filename || ends_with (codes ".jpg") filename))
      then inl invalid_file_type
      else if not (site.is_inside camera_id filename)
      then inl invalid_path
      else if site.is_file camera_id filename
      then inr (live_file camera_id filename)
      else inl resource_failure
  file_of filename (inr page) = inr page

  module _ (hash_public_token : Text → String) (parse_ip : String → Option (ℕ × ℕ)) where
    unfoldable pub get_shared_clip_page :
        Text → Visitor → ℕ → List ShareLink → (Refusal ⊎ Page) × List ShareLink
    get_shared_clip_page token visitor now links =
        shown true now (λ id. resolve_clip_resource id)
          (authorise_link hash_public_token parse_ip token "clip" visitor now links)

    unfoldable pub get_shared_clip_asset :
        Text → Visitor → ℕ → List ShareLink → (Refusal ⊎ Page) × List ShareLink
    get_shared_clip_asset token visitor now links =
        shown false now (λ id. resolve_clip_resource id)
          (authorise_link hash_public_token parse_ip token "clip" visitor now links)

    unfoldable pub get_shared_camera_page :
        Text → Visitor → ℕ → List ShareLink → (Refusal ⊎ Page) × List ShareLink
    get_shared_camera_page token visitor now links =
        shown true now (λ id. resolve_camera_resource false id)
          (authorise_link hash_public_token parse_ip token "camera" visitor now links)

    unfoldable pub get_shared_camera_whep_target :
        Text → Visitor → ℕ → List ShareLink → (Refusal ⊎ Page) × List ShareLink
    get_shared_camera_whep_target token visitor now links =
        shown false now (λ id. resolve_camera_resource false id)
          (authorise_link hash_public_token parse_ip token "camera" visitor now links)

    unfoldable pub get_shared_camera_file :
        Text → Text → Visitor → ℕ → List ShareLink → (Refusal ⊎ Page) × List ShareLink
    get_shared_camera_file filename token visitor now links =
        shown false now (λ id. file_of filename (resolve_camera_resource true id))
          (authorise_link hash_public_token parse_ip token "camera" visitor now links)
