-- ===== src/Engine.antt =====
-- The framework's regular expressions, URLs and file information, as far as the handlers call
-- them. None of this code is in the repository, so it is a parameter of the model.
use qt_sss_shttps.Common.{Bool}
use qt_sss_shttps.Text.{Text}

-- `QFileInfo` of a path.
pub record FileInfo : Type 0 where
  pub exists_at : Bool
  pub is_hidden : Bool
  pub is_file : Bool
  pub is_readable : Bool
  pub is_dir : Bool

-- A `QRegularExpression` is given by its pattern.
pub record Engine : Type 0 where
  pub is_valid_pattern : Text → Bool
  -- `match(sSubject).hasMatch()`
  pub has_match : (pattern_text subject : Text) → Bool
  -- `sSubject.replace(oRE, sAfter)`
  pub replace : (pattern_text after subject : Text) → Text
  -- `QUrl(sTarget).path()`
  pub url_path : Text → Text
  -- `toString()` of `QUrl(sTarget)` after `setPath(sPath)`
  pub url_with_path : (target path : Text) → Text
  pub file_info : Text → FileInfo
  -- `QDir::cleanPath`
  pub clean_path : Text → Text
