-- ===== src/Visibility.antt =====
-- How a release becomes visible: releases, exposures and reviews (server/modules/release,
-- server/modules/exposure, server/modules/review).
pub mod Model
pub mod Release
pub mod Policy
pub mod Review
pub mod Exposure
pub mod Reviewing
pub mod Publishing
pub mod Safety
pub mod History
pub mod Laws
pub mod Returned
pub mod Examples
