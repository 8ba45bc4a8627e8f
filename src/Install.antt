-- ===== src/Install.antt =====
-- include/nexus/installer.h: the data of the streaming installer, and its two interfaces. The
-- children model src/installer/installer.c: Classify the file names, Entries the table of files,
-- Feed the stream, Finish what follows it.
pub mod Classify
pub mod Entries
pub mod Feed
pub mod Finish
pub mod Table
pub mod Sorted
pub mod Run
pub mod Routing
pub mod Entry
pub mod Round
pub mod Turns
pub mod Tracked
pub mod Shut
pub mod Total
pub mod Manifest
pub mod Registered
pub mod Seen
pub mod Opened
pub mod Joined
pub mod Halfway
pub mod Laid
pub mod Pieces
pub mod Chunks
pub mod Life
mod Tests
use nx_nexus.Base.{ℕ, Bool, true, false, List, [], Option, none, replicate, Bytes}
use nx_nexus.PartitionFs.{PartitionFsContext, pfs0}

abbrev pub max_install_contents : ℕ
max_install_contents = 64

abbrev pub max_header : ℕ
max_header = 0x4000

abbrev pub max_ticket : ℕ
max_ticket = 0x1000

abbrev pub max_cert : ℕ
max_cert = 0x2000

abbrev pub max_cnmt : ℕ
max_cnmt = 0x4000

abbrev pub max_ext_header : ℕ
max_ext_header = 0x100

pub data InstallResult : Type 0 where
  install_ok in_progress bad_container header_too_large no_meta_nca : InstallResult
  too_many_contents bad_content_id bad_cnmt missing_content buffer_too_small : InstallResult
  backend_error no_decompressor bad_ncz aborted not_finished : InstallResult

pub data InstallStage : Type 0 where
  idle at_magic at_header streaming complete failed : InstallStage

pub data EntryKind : Type 0 where
  ignore nca meta_nca ticket cert ncz meta_ncz : EntryKind

abbrev pub is_content : EntryKind → Bool
is_content nca = true
is_content meta_nca = true
is_content ncz = true
is_content meta_ncz = true
is_content _ = false

abbrev pub is_compressed : EntryKind → Bool
is_compressed ncz = true
is_compressed meta_ncz = true
is_compressed _ = false

abbrev pub is_meta : EntryKind → Bool
is_meta meta_nca = true
is_meta meta_ncz = true
is_meta _ = false

pub record InstallContent : Type 0 where
  pub content_id : Bytes
  pub size : ℕ
  pub attr : ℕ
  pub content_type : ℕ
  pub id_offset : ℕ

-- `contents` holds the first `content_count` elements of the array, `ext_header` the first
-- `ext_header_size` bytes of its own.
pub record InstallMeta : Type 0 where
  pub title_id : ℕ
  pub version : ℕ
  pub meta_type : ℕ
  pub storage_id : ℕ
  pub ext_header : Bytes
  pub contents : List InstallContent
  pub has_ticket : Bool
  pub rights_id : Bytes

-- `NexusInstallBackendOps` over the state behind `user`. A hook that returns an `int` answers
-- whether that was 0. `read_cnmt` gives the `out_len` bytes it wrote, given the buffer's size.
pub record Backend : Type 1 where
  pub State : Type 0
  pub content_begin : Bytes → ℕ → State → Bool × State
  pub content_write : Bytes → State → Bool × State
  pub content_commit : State → Bool × State
  pub content_discard : State → State
  pub read_cnmt : Bytes → ℕ → State → Option Bytes × State
  pub import_ticket : Bytes → Bytes → State → Bool × State
  pub register_meta : InstallMeta → State → Bool × State
  pub push_record : InstallMeta → State → Bool × State
  pub rollback : InstallMeta → State → State

-- What a decoder does while it is fed: it hands bytes to the sink, where `size` answers the number
-- given here, goes on with the sink's answer, and in the end returns.
pub data Emission (S : Type 0) : Type 0 where
  returns : Bool → S → Emission S
  emits : ℕ → Bytes → (Bool → Emission S) → Emission S

-- `NexusNczOps` over the state behind `ncz_user`.
pub record Decoder : Type 1 where
  pub State : Type 0
  pub begin : State → Bool × State
  pub feed : Bytes → State → Emission State
  pub end : State → Bool × State
  pub size : State → ℕ

pub record InstallEntry : Type 0 where
  pub pfs_index : ℕ
  pub kind : EntryKind
  pub content_id : Bytes
  pub abs_offset : ℕ
  pub size : ℕ

-- `header`, `tik` and `cert` hold the first `header_have`, `tik_len` and `cert_len` bytes of their
-- buffers, `entries` the first `entry_count` elements; `has_decoder` is `ncz != NULL`.
pub record Installer : Type 0 where
  pub stage : InstallStage
  pub target_storage : ℕ
  pub header : Bytes
  pub header_size : ℕ
  pub pfs : PartitionFsContext
  pub entries : List InstallEntry
  pub entry_cursor : ℕ
  pub content_open : Bool
  pub tik : Bytes
  pub cert : Bytes
  pub meta_content_id : Bytes
  pub has_meta_nca : Bool
  pub meta_nca_size : ℕ
  pub has_decoder : Bool
  pub ncz_active : Bool
  pub stream_pos : ℕ
  pub bytes_written : ℕ
  pub meta : InstallMeta

-- The installer with what its `user` and `ncz_user` point to.
pub record Session (B : Backend) (N : Decoder) : Type 0 where
  pub ins : Installer
  pub user : B.State
  pub ncz_user : N.State

-- The zeroed structures.
abbrev pub no_meta : InstallMeta
no_meta = record {
  title_id = 0;
  version = 0;
  meta_type = 0;
  storage_id = 0;
  ext_header = [];
  contents = [];
  has_ticket = false;
  rights_id = replicate 16 0;
}

abbrev pub no_pfs : PartitionFsContext
no_pfs = record {
  fs_type = pfs0;
  header = [];
  header_len = 0;
  entry_count = 0;
  name_table_size = 0;
  entry_size = 0;
  header_size = 0;
  name_table_off = 0;
}

-- `nexusInstallBegin`, which answers `in_progress`.
unfoldable pub begin_install : ℕ → Installer
begin_install target_storage = record {
  stage = at_magic;
  target_storage = target_storage;
  header = [];
  header_size = 0;
  pfs = no_pfs;
  entries = [];
  entry_cursor = 0;
  content_open = false;
  tik = [];
  cert = [];
  meta_content_id = replicate 16 0;
  has_meta_nca = false;
  meta_nca_size = 0;
  has_decoder = false;
  ncz_active = false;
  stream_pos = 0;
  bytes_written = 0;
  meta = record no_meta { storage_id = target_storage };
}

-- `nexusInstallSetDecompressor` of a decoder that is not NULL.
unfoldable pub set_decompressor : Installer → Installer
set_decompressor ins = record ins { has_decoder = true }
