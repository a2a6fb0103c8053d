-- ===== src/Tests/Translate.antt =====
-- Texture properties at concrete values.
use gravity_gpu_project.Prelude.{◌≡◌, ◌==◌, not, ◌&&◌, false}
use gravity_gpu_project.Formats.Pixel.{pixel_format_is_depth_stencil}
use gravity_gpu_project.Translate.Flags.{translate_texture_usage}
use gravity_gpu_project.Translate.Agree.{attachments_lem}

attachments_lem_example :
    (((translate_texture_usage 0 252).depth_stencil_attachment
        && (translate_texture_usage 0 252).color_attachment)
      ≡ false)
    × (((translate_texture_usage 0 252).depth_stencil_attachment
          && not (pixel_format_is_depth_stencil 252))
        ≡ false)
    × (((translate_texture_usage 0 252).color_attachment && pixel_format_is_depth_stencil 252)
        ≡ ((0 == 0) && pixel_format_is_depth_stencil 252))
attachments_lem_example = attachments_lem 0 252
