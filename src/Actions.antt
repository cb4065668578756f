-- ===== src/Actions.antt =====
-- The read access to the Actions cluster in main/DeviceCallbacks.cpp.
use matter_lwm2m_bridge.Base.{ℕ, Option, none, some, ◌==◌, if◌then◌else◌}
use matter_lwm2m_bridge.Text.{Bytes, codes}

-- The ids that the Matter SDK generates.
pub record ActionsIds : Type 0 where
  pub actions : ℕ
  pub action_list : ℕ
  pub endpoint_lists : ℕ
  pub setup_url : ℕ
  pub cluster_revision : ℕ

-- What an encoder is given.
pub data Encoded : Type 0 where
  empty_list : Encoded
  char_span : Bytes → Encoded
  number : ℕ → Encoded

-- What a read does: it fails a check that ends the program, or it returns an error of the encoder,
-- `none` for `CHIP_NO_ERROR`, with what was encoded.
pub data ReadResult : Type 0 where
  died : ReadResult
  returned : Option ℕ → Option Encoded → ReadResult

abbrev pub actions_cluster_revision : ℕ
actions_cluster_revision = 1

-- `encode` is the error that the encoder answers.
module _ (ids : ActionsIds) (encode : Encoded → Option ℕ) where
  abbrev encoded : Encoded → ReadResult
  encoded value = returned (encode value) (some value)

  unfoldable pub read_action_list_attribute : ℕ → ReadResult
  read_action_list_attribute endpoint = encoded empty_list

  unfoldable pub read_endpoint_list_attribute : ℕ → ReadResult
  read_endpoint_list_attribute endpoint = encoded empty_list

  unfoldable pub read_setup_url_attribute : ℕ → ReadResult
  read_setup_url_attribute endpoint = encoded (char_span (codes "https://example.com"))

  unfoldable pub read_cluster_revision : ℕ → ReadResult
  read_cluster_revision endpoint = encoded (number actions_cluster_revision)

  -- `ActionsAttrAccess::Read`, at an endpoint, a cluster and an attribute.
  unfoldable pub read : ℕ → ℕ → ℕ → ReadResult
  unfolding read_action_list_attribute read_endpoint_list_attribute read_setup_url_attribute
      read_cluster_revision
  read endpoint cluster_id attribute_id =
      if cluster_id == ids.actions
      then (if attribute_id == ids.action_list
          then read_action_list_attribute endpoint
          else if attribute_id == ids.endpoint_lists
          then read_endpoint_list_attribute endpoint
          else if attribute_id == ids.setup_url
          then read_setup_url_attribute endpoint
          else if attribute_id == ids.cluster_revision
          then read_cluster_revision endpoint
          else returned none none)
      else died
