-- ===== src/SupportedDm.antt =====
-- src/supported_dm.c: the table of the data models, its instances and their aliases in the sections data_model of
-- dmmap, by the lists of Dmmap.
use sysmngr.Prelude.{ℕ, ◌+◌, Bool, List, [], ◌∷◌, if◌then◌else◌, codes, length, Text}
use sysmngr.Libc.{decimal}
use sysmngr.Memory.Params.{Action, valuecheck, valueset}
use sysmngr.Dmmap.{Section, find_alias, or_cpe, put_alias}

pub record SupportedDataModel : Type 0 where
  pub url : Text
  pub urn : Text
  pub features : Text

abbrev pub data_models : List SupportedDataModel
data_models =
    record {
      url = codes "http://www.broadband-forum.org/cwmp/tr-181-2-18-1.xml";
      urn = codes "urn:broadband-forum-org:tr-181-2-18-1";
      features = codes "IP,Wireless,Firewall,NAT,DHCP,QoS,DNS,GRE,UPnP";
    }
    ∷ record {
      url = codes "http://www.broadband-forum.org/cwmp/tr-104-2-0-2.xml";
      urn = codes "urn:broadband-forum-org:tr-104-2-0-2";
      features = codes "VoiceService";
    }
    ∷ record {
      url = codes "http://www.broadband-forum.org/cwmp/tr-143-1-1-0.xml";
      urn = codes "urn:broadband-forum-org:tr-143-1-1-0";
      features = codes "Ping,TraceRoute,Download,Upload,UDPecho,ServerSelectionDiag";
    }
    ∷ record {
      url = codes "http://www.broadband-forum.org/cwmp/tr-157-1-3-0.xml";
      urn = codes "urn:broadband-forum-org:tr-157-1-3-0";
      features = codes "Bulkdata,SoftwareModules";
    }
    ∷ []

-- `stops` says where DM_LINK_INST_OBJ gives DM_STOP; that instance is linked before.
abbrev pub link_models :
    (Text → Bool) → ℕ → List SupportedDataModel → List (Text × SupportedDataModel)
link_models stops i [] = []
link_models stops i (m ∷ rest) =
    let inst = decimal (i + 1) in
    let more = link_models stops (i + 1) rest in
    if stops inst then (inst, m) ∷ [] else (inst, m) ∷ more

unfoldable pub browse_supported_data_model : (Text → Bool) → List (Text × SupportedDataModel)
browse_supported_data_model stops = link_models stops 0 data_models

unfoldable pub get_number_of_entries : Text
get_number_of_entries = decimal (length data_models)

unfoldable pub get_alias : Text → List Section → Text
get_alias instance_name sections = or_cpe instance_name (find_alias instance_name sections)

unfoldable pub get_url : SupportedDataModel → Text
get_url m = m.url

unfoldable pub get_urn : SupportedDataModel → Text
get_urn m = m.urn

unfoldable pub get_features : SupportedDataModel → Text
get_features m = m.features

-- `validate` is bbfdm_validate_string with at most 64 bytes, true if the alias is accepted.
unfoldable pub set_alias :
    (validate : Text → Bool) (fault_9007 : ℕ)
    → Action
    → Text
    → Text
    → List Section
    → ℕ × List Section
set_alias validate fault_9007 valuecheck instance_name value sections =
    (if validate value then 0 else fault_9007, sections)
set_alias validate fault_9007 valueset instance_name value sections =
    (0, put_alias instance_name value sections)
